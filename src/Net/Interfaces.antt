-- ===== src/Net/Interfaces.antt =====
-- Network interfaces: their indices and the search for one to test multicast on
-- (.mooncakes/moonbitlang/async/src/socket/socket.c), on Linux. What the system answers is a parameter.
pub mod Search
use moonbit.Prelude.{
  ℕ, ◌==◌, ◌+◌, ◌*◌, ◌/◌, ◌&&◌, Bool, true, false, not, List, [], ◌∷◌, ◌++◌, if◌then◌else◌, leb,
  length, Option, none, some,
}
use moonbit.Prelude.Bytes.{take}
use moonbit.Net.Address.{Sockaddr, af_inet6}

-- `ifr_name` of a request is 16 bytes.
abbrev pub ifnamsiz : ℕ
ifnamsiz = 16

-- What naming an interface comes to: ENAMETOOLONG, or a request with the bytes that are copied, the 0
-- at the end too.
pub data IfRequest : Type 0 where
  name_too_long : IfRequest
  siocgifindex : List ℕ → IfRequest

unfoldable pub if_request : List ℕ → IfRequest
unfolding take
if_request name =
    if leb ifnamsiz (length name)
    then name_too_long
    else siocgifindex (take (length name + 1) (name ++ (0 ∷ [])))

-- `ioctl` gives the index, or nothing where it fails.
unfoldable pub index_or_zero : Option ℕ → ℕ
index_or_zero none = 0
index_or_zero (some ifr_ifindex) = ifr_ifindex

unfoldable pub on_request : (List ℕ → Option ℕ) → IfRequest → ℕ
unfolding index_or_zero
on_request ioctl name_too_long = 0
on_request ioctl (siocgifindex bytes) = index_or_zero (ioctl bytes)

unfoldable pub if_nametoindex : (List ℕ → Option ℕ) → List ℕ → ℕ
unfolding if_request on_request
if_nametoindex ioctl name = on_request ioctl (if_request name)

-- The flags that are looked at.
pub record IfFlags : Type 0 where
  pub iff_loopback : Bool
  pub iff_up : Bool
  pub iff_running : Bool
  pub iff_multicast : Bool

-- A node of the list that `getifaddrs` gives; `none` is NULL.
pub record Ifaddrs : Type 0 where
  pub ifa_name : List ℕ
  pub ifa_flags : IfFlags
  pub ifa_addr : Option Sockaddr

-- The prefix fe80::/10
unfoldable pub is_linklocal : List ℕ → Bool
is_linklocal (a ∷ b ∷ bytes) = a == 254 && b / 64 == 2
is_linklocal _ = false

unfoldable pub has_linklocal : Option Sockaddr → Bool
unfolding is_linklocal
has_linklocal (some (af_inet6 addr)) = is_linklocal addr.sin6_addr
has_linklocal _ = false

unfoldable pub is_suitable : Ifaddrs → Bool
unfolding has_linklocal
is_suitable ifs =
    not ifs.ifa_flags.iff_loopback
    && ifs.ifa_flags.iff_up
    && ifs.ifa_flags.iff_running
    && ifs.ifa_flags.iff_multicast
    && has_linklocal ifs.ifa_addr

-- The loop over the nodes, with the result so far; `index` is `if_nametoindex` of the system.
unfoldable pub search_interfaces : (List ℕ → ℕ) → ℕ → List Ifaddrs → ℕ
unfolding is_suitable
search_interfaces index result [] = result
search_interfaces index result (ifs ∷ rest) =
    let unsuited = search_interfaces index result rest in
    let further = search_interfaces index (index ifs.ifa_name) rest in
    if is_suitable ifs
    then if index ifs.ifa_name == 0 then further else index ifs.ifa_name
    else unsuited

-- The result, and the list that is freed; `none` is a failure of `getifaddrs`.
unfoldable pub find_ipv6_test_interface :
    (List ℕ → ℕ) → Option (List Ifaddrs) → ℕ × Option (List Ifaddrs)
unfolding search_interfaces
find_ipv6_test_interface index none = (0, none)
find_ipv6_test_interface index (some ifs0) = (search_interfaces index 0 ifs0, some ifs0)
