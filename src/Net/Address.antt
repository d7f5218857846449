-- ===== src/Net/Address.antt =====
-- Socket addresses as they lie in memory
-- (.mooncakes/moonbitlang/async/src/socket/socket.c). A port and an IPv4 address are in network order,
-- the highest byte first; `htons`, `htonl` and their inverses go between that and numbers, whatever
-- the order of the machine is.
pub mod Fields
use moonbit.Prelude.{
  ℕ, ◌+◌, ◌*◌, ◌/◌, ◌%◌, Bool, true, false, ◌&&◌, List, [], ◌∷◌, Option, none, some, leb, ltb, ◌==◌,
}
use moonbit.Prelude.Bytes.{take, drop}

-- A field of two bytes and one of four.
pub record Net16 : Type 0 where
  pub high : ℕ
  pub low : ℕ

pub record Net32 : Type 0 where
  pub b₀ : ℕ
  pub b₁ : ℕ
  pub b₂ : ℕ
  pub b₃ : ℕ

-- The argument of `htons` is cut to 16 bits.
unfoldable pub htons : ℕ → Net16
htons n = record { high = n / 256 % 256; low = n % 256 }

unfoldable pub ntohs : Net16 → ℕ
ntohs s = s.high * 256 + s.low

unfoldable pub htonl : ℕ → Net32
htonl n = record { b₀ = n / 16777216 % 256; b₁ = n / 65536 % 256; b₂ = n / 256 % 256; b₃ = n % 256 }

unfoldable pub ntohl : Net32 → ℕ
ntohl l = l.b₀ * 16777216 + l.b₁ * 65536 + l.b₂ * 256 + l.b₃

pub record SockaddrIn : Type 0 where
  pub sin_port : Net16
  pub sin_addr : Net32

-- The address is its 16 bytes.
pub record SockaddrIn6 : Type 0 where
  pub sin6_flowinfo : ℕ
  pub sin6_port : Net16
  pub sin6_addr : List ℕ
  pub sin6_scope_id : ℕ

-- `struct sockaddr`, by its family.
pub data Sockaddr : Type 0 where
  af_inet : SockaddrIn → Sockaddr
  af_inet6 : SockaddrIn6 → Sockaddr
  af_other : ℕ → Sockaddr

unfoldable pub init_ip_addr : ℕ → ℕ → SockaddrIn
unfolding htons htonl
init_ip_addr ip port = record { sin_port = htons port; sin_addr = htonl ip }

unfoldable pub init_ipv6_addr : List ℕ → ℕ → ℕ → SockaddrIn6
unfolding htons
init_ipv6_addr ip port scope_id = record {
  sin6_flowinfo = 0;
  sin6_port = htons port;
  sin6_addr = ip;
  sin6_scope_id = scope_id;
}

unfoldable pub ip_addr_get_ip : SockaddrIn → ℕ
unfolding ntohl
ip_addr_get_ip addr = ntohl addr.sin_addr

-- The port stands at the same place in both families.
unfoldable pub sockaddr_port : Sockaddr → Option Net16
sockaddr_port (af_inet addr) = some addr.sin_port
sockaddr_port (af_inet6 addr) = some addr.sin6_port
sockaddr_port (af_other family) = none

unfoldable pub ip_addr_get_port : Sockaddr → Option ℕ
unfolding sockaddr_port ntohs
ip_addr_get_port addr = elim (sockaddr_port addr) [ none ↦ none | some port ↦ some (ntohs port) ]

unfoldable pub addr_is_ipv6 : Sockaddr → Bool
addr_is_ipv6 (af_inet6 addr) = true
addr_is_ipv6 _ = false

unfoldable pub first_byte : List ℕ → ℕ
first_byte [] = 0
first_byte (b ∷ bytes) = b

unfoldable pub addr_is_multicast : Sockaddr → Bool
unfolding ntohl first_byte
addr_is_multicast (af_inet addr) =
    let first_octet = ntohl addr.sin_addr / 16777216 in leb 224 first_octet && ltb first_octet 240
addr_is_multicast (af_inet6 addr) = first_byte addr.sin6_addr == 255
addr_is_multicast (af_other family) = false

unfoldable pub addr_get_ipv6_bytes : SockaddrIn6 → List ℕ
addr_get_ipv6_bytes addr = addr.sin6_addr

unfoldable pub addr_get_ipv6_scope_id : SockaddrIn6 → ℕ
addr_get_ipv6_scope_id addr = addr.sin6_scope_id

-- A number of the bytes given, the lowest first as on the machine; the order does not matter to the
-- test against 0.
unfoldable pub chunk : List ℕ → ℕ
chunk [] = 0
chunk (b ∷ bytes) = b + 256 * chunk bytes

unfoldable pub addr_is_ipv6_wildcard : SockaddrIn6 → Bool
unfolding chunk take drop
addr_is_ipv6_wildcard addr =
    chunk (take 8 addr.sin6_addr) == 0 && chunk (take 8 (drop 8 addr.sin6_addr)) == 0
