-- ===== src/Net/Interfaces/Search.antt =====
-- Which interface the search finds (.mooncakes/moonbitlang/async/src/socket/socket.c).
use moonbit.Prelude.{
  ℕ, ◌==◌, ◌≡◌, ◌≤◌, refl, ap, sym, ◌∙◌, true, false, not, ◌&&◌, List, [], ◌∷◌, ◌++◌, if◌then◌else◌,
  Option, none, some, Bool-cases, inl, inr, arith, length, length-append, leb, ◌+◌,
}
use mathlib.Core.Path.{subst}
use moonbit.Prelude.Bytes.{take, take_all}
use moonbit.Net.Interfaces.{
  IfRequest, ifnamsiz, Ifaddrs, is_suitable, search_interfaces, find_ipv6_test_interface,
  if_request, on_request, index_or_zero, if_nametoindex, name_too_long, siocgifindex,
}

-- The indices of the suitable interfaces that have one, in their order.
abbrev indices : (List ℕ → ℕ) → List Ifaddrs → List ℕ
indices index [] = []
indices index (ifs ∷ rest) =
    if is_suitable ifs && not (index ifs.ifa_name == 0)
    then index ifs.ifa_name ∷ indices index rest
    else indices index rest

abbrev first_or_zero : List ℕ → ℕ
first_or_zero [] = 0
first_or_zero (n ∷ ns) = n

abbrev or_empty : Option (List Ifaddrs) → List Ifaddrs
or_empty none = []
or_empty (some ifs) = ifs

-- How many bytes of the request are written.
abbrev pub written : IfRequest → ℕ
written name_too_long = 0
written (siocgifindex bytes) = length bytes

search_lem :
    (index : List ℕ → ℕ) (ifs : List Ifaddrs)
    → search_interfaces index 0 ifs ≡ first_or_zero (indices index ifs)
unfolding search_interfaces
search_lem index [] = refl
search_lem index (ifs ∷ rest) = elim (Bool-cases (is_suitable ifs)) [
  | inr unsuited ↦ rw unsuited (search_lem index rest)
  | inl suited ↦ elim (Bool-cases (index ifs.ifa_name == 0)) [
    | inl nameless ↦
        let unnumbered : index ifs.ifa_name ≡ 0 = ground arith in
        rw (suited, nameless, unnumbered) (search_lem index rest)
    | inr indexed ↦ rw (suited, indexed) refl
  ]
]

-- The search gives the index of the first interface that is suitable and has an index, 0 where there
-- is none or the interfaces cannot be listed, and frees the list if there is one.
find_ipv6_test_interface_lem :
    (index : List ℕ → ℕ) (listed : Option (List Ifaddrs))
    → find_ipv6_test_interface index listed
      ≡ (first_or_zero (indices index (or_empty listed)), listed)
unfolding find_ipv6_test_interface
find_ipv6_test_interface_lem index none = refl
find_ipv6_test_interface_lem index (some ifs) = ap (λ n. (n, some ifs)) (search_lem index ifs)

requested :
    (name : List ℕ)
    → if_request name
      ≡ (if leb ifnamsiz (length name) then name_too_long else siocgifindex (name ++ (0 ∷ [])))
unfolding if_request
requested name =
    let whole : take (length name + 1) (name ++ (0 ∷ [])) ≡ name ++ (0 ∷ []) =
      take_all (length name + 1) (name ++ (0 ∷ [])) (omega (arith, length-append name (0 ∷ []))) in
    ap (λ bytes. if leb ifnamsiz (length name) then name_too_long else siocgifindex bytes) whole

-- Naming an interface never writes past the request, and a name that fits with its final 0 is asked
-- for whole; 0 stands for one that does not fit and for an unknown one.
if_nametoindex_lem :
    (ioctl : List ℕ → Option ℕ) (name : List ℕ)
    → (written (if_request name) ≤ 16)
      × (if_nametoindex ioctl name
          ≡ (if leb (length name + 1) 16 then index_or_zero (ioctl (name ++ (0 ∷ []))) else 0))
unfolding if_nametoindex on_request
if_nametoindex_lem ioctl name = elim (Bool-cases (leb ifnamsiz (length name))) [
  | inl long ↦
      let too_long : leb (length name + 1) 16 ≡ false = ground arith in
      let seen : if_request name ≡ name_too_long = requested name ∙ rw long refl in
      (
        subst (λ r. written r ≤ 16) (sym seen) (omega arith),
        ap (on_request ioctl) seen ∙ rw too_long refl,
      )
  | inr short ↦
      let fits : leb (length name + 1) 16 ≡ true = ground arith in
      let seen : if_request name ≡ siocgifindex (name ++ (0 ∷ [])) =
        requested name ∙ rw short refl in
      (
        subst (λ r. written r ≤ 16) (sym seen) (ground (arith, length-append name (0 ∷ []), short)),
        ap (on_request ioctl) seen ∙ rw fits refl,
      )
]
