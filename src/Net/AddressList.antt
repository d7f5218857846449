-- ===== src/Net/AddressList.antt =====
-- The list that `getaddrinfo` gives (.mooncakes/moonbitlang/async/src/socket/socket.c) and the choice of
-- an address out of it (addr.mbt there). A pointer to `struct addrinfo` is the list of the nodes from
-- there on, `[]` for NULL.
use moonbit.Prelude.{ℕ, Bool, true, false, Option, none, some, List, [], ◌∷◌, if◌then◌else◌}
use moonbit.Net.Address.{Sockaddr, af_inet, af_inet6, af_other, htons, addr_is_ipv6}

-- A node by its `ai_addr`, which is NULL or of the family of the node.
pub data AddrInfo : Type 0 where
  without_addr : AddrInfo
  with_addr : Sockaddr → AddrInfo

unfoldable pub addrinfo_is_null : List AddrInfo → Bool
addrinfo_is_null [] = true
addrinfo_is_null (node ∷ next) = false

-- `ai_next`; of NULL there is none.
unfoldable pub addrinfo_get_next : List AddrInfo → Option (List AddrInfo)
addrinfo_get_next [] = none
addrinfo_get_next (node ∷ next) = some next

-- `sizeof` of the structures on Linux
abbrev pub ipv4_addr_size : ℕ
ipv4_addr_size = 16

abbrev pub ipv6_addr_size : ℕ
ipv6_addr_size = 28

unfoldable pub sockaddr_size : Sockaddr → ℕ
sockaddr_size (af_inet addr) = ipv4_addr_size
sockaddr_size (af_inet6 addr) = ipv6_addr_size
sockaddr_size (af_other family) = 0

unfoldable pub addrinfo_addr_size : List AddrInfo → ℕ
unfolding sockaddr_size
addrinfo_addr_size [] = 0
addrinfo_addr_size (without_addr ∷ next) = 0
addrinfo_addr_size (with_addr addr ∷ next) = sockaddr_size addr

unfoldable pub copy_addr : Sockaddr → ℕ → Option Sockaddr
unfolding htons
copy_addr (af_inet addr) port = some (af_inet (record addr { sin_port = htons port }))
copy_addr (af_inet6 addr) port = some (af_inet6 (record addr { sin6_port = htons port }))
copy_addr (af_other family) port = none

-- What is written to the memory given, if anything is.
unfoldable pub addrinfo_fill_addr : List AddrInfo → ℕ → Option Sockaddr
unfolding copy_addr
addrinfo_fill_addr [] port = none
addrinfo_fill_addr (without_addr ∷ next) port = none
addrinfo_fill_addr (with_addr addr ∷ next) port = copy_addr addr port

-- `AddrInfo::to_addr`: memory of that size, then filled; `none` is memory of size 0.
unfoldable pub to_addr : List AddrInfo → ℕ → Option Sockaddr
unfolding addrinfo_fill_addr
to_addr ai port = addrinfo_fill_addr ai port

pub data IpProtocolPreference : Type 0 where
  only_v4 only_v6 favor_v4 favor_v6 no_preference : IpProtocolPreference

-- The result of `Addr::resolve`: an address, ResolveHostnameError, an address of size 0, or a read past
-- the end of such an address.
pub data Resolved : Type 0 where
  resolved : Sockaddr → Resolved
  no_available_v4 no_available_v6 : Resolved
  empty_addr out_of_bounds : Resolved

-- The loop over the nodes after the first, which looks for an address of IPv6, or of IPv4; `otherwise`
-- is what follows the loop.
unfoldable pub search_from : Bool → Resolved → ℕ → List AddrInfo → Resolved
unfolding to_addr addr_is_ipv6
search_from v6 otherwise port [] = otherwise
search_from v6 otherwise port (node ∷ next) =
    let rest = search_from v6 otherwise port next in
    elim (to_addr (node ∷ next) port) [
      | none ↦ out_of_bounds
      | some addr ↦
          if addr_is_ipv6 addr
          then if v6 then resolved addr else rest
          else if v6
          then rest
          else resolved addr
    ]

unfoldable pub choose_addr : IpProtocolPreference → ℕ → Sockaddr → List AddrInfo → Resolved
unfolding search_from addr_is_ipv6
choose_addr no_preference port first next = resolved first
choose_addr favor_v4 port first next =
    if addr_is_ipv6 first then search_from false (resolved first) port next else resolved first
choose_addr only_v4 port first next =
    if addr_is_ipv6 first then search_from false no_available_v4 port next else resolved first
choose_addr favor_v6 port first next =
    if addr_is_ipv6 first then resolved first else search_from true (resolved first) port next
choose_addr only_v6 port first next =
    if addr_is_ipv6 first then resolved first else search_from true no_available_v6 port next

-- The family of an address of size 0 is read wherever there is a preference.
unfoldable pub choose_empty : IpProtocolPreference → Resolved
choose_empty no_preference = empty_addr
choose_empty _ = out_of_bounds

-- `Addr::resolve`, from the list that `getaddrinfo` gave.
unfoldable pub resolve : IpProtocolPreference → ℕ → List AddrInfo → Resolved
unfolding to_addr choose_addr choose_empty
resolve protocol port [] = choose_empty protocol
resolve protocol port (node ∷ next) = elim (to_addr (node ∷ next) port) [
  | none ↦ choose_empty protocol
  | some first ↦ choose_addr protocol port first next
]
