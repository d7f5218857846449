-- ===== src/Net/Socket.antt =====
-- Making sockets and setting their options (.mooncakes/moonbitlang/async/src/socket/socket.c), on Linux.
-- The kernel is a parameter. A truth value of C is `pos 0` or another integer.
pub mod Made
use moonbit.Prelude.{
  ℕ, ◌==◌, ◌+◌, Bool, true, false, List, [], ◌∷◌, if◌then◌else◌, leb, length, Option, none, some,
  ◌++◌,
}
use moonbit.Prelude.Bytes.{take}
use moonbit.Prelude.Int.{ℤ, pos, negsuc, ltb_ℤ}
use moonbit.Runtime.Calls.{is_nonzero}
use moonbit.Net.Address.{Sockaddr, SockaddrIn, SockaddrIn6, Net32}

pub data Family : Type 0 where
  family_inet family_inet6 : Family

pub data SocketType : Type 0 where
  sock_stream sock_dgram : SocketType

-- An option with its level, and its value: an integer, or a structure of addresses.
pub data SocketOption : Type 0 where
  tcp_nodelay : ℤ → SocketOption
  so_reuseaddr : ℤ → SocketOption
  ip_add_membership : Net32 → Net32 → SocketOption
  ipv6_add_membership : List ℕ → ℕ → SocketOption
  ip_multicast_if : Net32 → SocketOption
  ipv6_multicast_if : ℕ → SocketOption
  ip_multicast_ttl : ℤ → SocketOption
  ipv6_multicast_hops : ℤ → SocketOption
  ip_multicast_loop : ℤ → SocketOption
  ipv6_multicast_loop : ℤ → SocketOption
  ipv6_v6only : ℤ → SocketOption

pub record SocketKernel (S : Type 0) : Type 0 where
  pub socket : Family → SocketType → S → ℤ × S
  pub setsockopt : ℤ → SocketOption → S → ℤ × S
  pub close : ℤ → S → S
  pub listen : ℤ → ℕ → S → ℤ × S
  pub is_open : S → ℤ → Bool
  pub reuses : S → ℤ → Bool

-- `family == 4 ? AF_INET : AF_INET6`
unfoldable pub family_of : ℕ → Family
family_of family = if family == 4 then family_inet else family_inet6

module _ {S : Type 0} (K : SocketKernel S) where
  unfoldable pub make_tcp_socket : ℕ → S → ℤ × S
  unfolding family_of
  make_tcp_socket family s = K.socket (family_of family) sock_stream s

  unfoldable pub disable_nagle : ℤ → S → ℤ × S
  disable_nagle sock s = K.setsockopt sock (tcp_nodelay (pos 1)) s

  unfoldable pub allow_reuse_addr : ℤ → S → ℤ × S
  allow_reuse_addr sock s = K.setsockopt sock (so_reuseaddr (pos 1)) s

  -- The socket is closed where the option cannot be set.
  unfoldable pub make_udp_socket : ℕ → ℤ → S → ℤ × S
  unfolding family_of is_nonzero
  make_udp_socket family multicast s =
      let (sock, s') = K.socket (family_of family) sock_dgram s in
      let (ret, s'') = K.setsockopt sock (so_reuseaddr (pos 1)) s' in
      if is_nonzero multicast
      then if ltb_ℤ ret (pos 0) then (negsuc 0, K.close sock s'') else (sock, s'')
      else (sock, s')

  unfoldable pub join_multicast_group : ℤ → SockaddrIn → SockaddrIn → S → ℤ × S
  join_multicast_group sock multi_addr local_addr s =
      K.setsockopt sock (ip_add_membership multi_addr.sin_addr local_addr.sin_addr) s

  unfoldable pub join_multicast_group_v6 : ℤ → SockaddrIn6 → ℕ → S → ℤ × S
  join_multicast_group_v6 sock multi_addr if_index s =
      K.setsockopt sock (ipv6_add_membership multi_addr.sin6_addr if_index) s

  unfoldable pub set_multicast_interface : ℤ → SockaddrIn → S → ℤ × S
  set_multicast_interface sock local_addr s =
      K.setsockopt sock (ip_multicast_if local_addr.sin_addr) s

  unfoldable pub set_multicast_interface_v6 : ℤ → ℕ → S → ℤ × S
  set_multicast_interface_v6 sock interface_index s =
      K.setsockopt sock (ipv6_multicast_if interface_index) s

  unfoldable pub set_multicast_ttl : ℤ → ℤ → ℕ → S → ℤ × S
  set_multicast_ttl sock ttl family s =
      K.setsockopt sock (if family == 4 then ip_multicast_ttl ttl else ipv6_multicast_hops ttl) s

  unfoldable pub set_multicast_loopback : ℤ → ℤ → ℕ → S → ℤ × S
  set_multicast_loopback sock enable family s =
      K.setsockopt sock
        (if family == 4 then ip_multicast_loop enable else ipv6_multicast_loop enable) s

  unfoldable pub set_ipv6_only : ℤ → ℤ → S → ℤ × S
  set_ipv6_only sockfd ipv6_only s = K.setsockopt sockfd (ipv6_v6only ipv6_only) s

  -- SOMAXCONN is 4096.
  unfoldable pub listen_socket : ℤ → S → ℤ × S
  listen_socket sockfd s = K.listen sockfd 4096 s
