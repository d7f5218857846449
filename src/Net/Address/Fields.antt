-- ===== src/Net/Address/Fields.antt =====
-- What an address that was set up gives back, and the kinds of addresses by their numbers
-- (.mooncakes/moonbitlang/async/src/socket/socket.c).
use moonbit.Prelude.{
  ℕ, ◌/◌, ◌<◌, ◌≡◌, ◌↔◌, refl, sym, ap, ◌∙◌, true, false, ◌&&◌, List, [], ◌∷◌, ◌++◌, some, leb, ltb,
  ◌==◌, arith, length, All,
}
use moonbit.Prelude.Bytes.{take, drop, take_all, take-append-drop, length-drop}
use mathlib.Core.Path.{subst}
use moonbit.Net.Address.{
  af_inet, af_inet6, htons, ntohs, htonl, ntohl, init_ip_addr, init_ipv6_addr, ip_addr_get_ip,
  ip_addr_get_port, sockaddr_port, addr_is_ipv6, addr_is_multicast, first_byte, addr_get_ipv6_bytes,
  addr_get_ipv6_scope_id, addr_is_ipv6_wildcard, chunk,
}

ntohs-htons : (port : ℕ) → port < 65536 → ntohs (htons port) ≡ port
unfolding ntohs htons
ntohs-htons port h = omega arith

ntohl-htonl : (ip : ℕ) → ip < 4294967296 → ntohl (htonl ip) ≡ ip
unfolding ntohl htonl
ntohl-htonl ip h = omega arith

-- Class D: the four highest bits are 1110.
octet_range : (ip : ℕ) → leb 224 (ip / 16777216) && ltb (ip / 16777216) 240 ≡ (ip / 268435456 == 14)
octet_range ip = ground arith

-- An IPv4 address gives back the number and the port that it was set up with, is of IPv4, and is a
-- multicast address exactly if the number begins with the bits 1110.
init_ip_addr_lem :
    (ip port : ℕ)
    → ip < 4294967296
    → port < 65536
    → let addr = init_ip_addr ip port in
      (ip_addr_get_ip addr ≡ ip)
      × (ip_addr_get_port (af_inet addr) ≡ some port)
      × (addr_is_ipv6 (af_inet addr) ≡ false)
      × (addr_is_multicast (af_inet addr) ≡ (ip / 268435456 == 14))
unfolding init_ip_addr ip_addr_get_ip ip_addr_get_port sockaddr_port addr_is_ipv6 addr_is_multicast
init_ip_addr_lem ip port hi hp = (
  ntohl-htonl ip hi,
  ap some (ntohs-htons port hp),
  refl,
  rw (ntohl-htonl ip hi) (octet_range ip),
)

abbrev pub IsZero : ℕ → Type 0
IsZero b = b ≡ 0

chunk-IsZero : (bytes : List ℕ) → (chunk bytes ≡ 0) ↔ All IsZero bytes
unfolding chunk
chunk-IsZero [] = ((λ h. tt), (λ h. refl))
chunk-IsZero (b ∷ bytes) = (
  (λ h. (omega arith, (chunk-IsZero bytes).0 (omega arith))),
  (λ h. omega (arith, h.0, (chunk-IsZero bytes).1 h.1)),
)

All-append_iff : (P : ℕ → Type 0) (xs ys : List ℕ) → All P (xs ++ ys) ↔ (All P xs × All P ys)
All-append_iff P [] ys = ((λ h. (tt, h)), (λ h. h.1))
All-append_iff P (x ∷ xs) ys = (
  (λ h. let r = (All-append_iff P xs ys).0 h.1 in ((h.0, r.0), r.1)),
  (λ h. (h.0.0, (All-append_iff P xs ys).1 (h.0.1, h.1))),
)

both_zero : (a b : ℕ) → ((a == 0) && (b == 0) ≡ true) ↔ ((a ≡ 0) × (b ≡ 0))
both_zero a b = ((λ h. ground arith), (λ h. ground arith))

halves : (ip : List ℕ) → length ip ≡ 16 → take 8 ip ++ take 8 (drop 8 ip) ≡ ip
halves ip h =
    ap (λ l. take 8 ip ++ l) (take_all 8 (drop 8 ip) (omega (arith, length-drop 8 ip)))
    ∙ take-append-drop 8 ip

-- An IPv6 address gives back the bytes, the port and the scope that it was set up with, is of IPv6, is
-- a multicast address exactly if the first byte is 255, and the wildcard exactly if all its bytes
-- are 0.
init_ipv6_addr_lem :
    (b : ℕ) (bytes : List ℕ) (port scope_id : ℕ)
    → length (b ∷ bytes) ≡ 16
    → port < 65536
    → let addr = init_ipv6_addr (b ∷ bytes) port scope_id in
      (addr_get_ipv6_bytes addr ≡ b ∷ bytes)
      × (ip_addr_get_port (af_inet6 addr) ≡ some port)
      × (addr_get_ipv6_scope_id addr ≡ scope_id)
      × (addr_is_ipv6 (af_inet6 addr) ≡ true)
      × (addr_is_multicast (af_inet6 addr) ≡ (b == 255))
      × ((addr_is_ipv6_wildcard addr ≡ true) ↔ All IsZero (b ∷ bytes))
unfolding init_ipv6_addr ip_addr_get_port sockaddr_port addr_is_ipv6 addr_is_multicast first_byte
    addr_get_ipv6_bytes addr_get_ipv6_scope_id addr_is_ipv6_wildcard
init_ipv6_addr_lem b bytes port scope_id h hp =
    let ip = b ∷ bytes in
    let front = take 8 ip in
    let back = take 8 (drop 8 ip) in
    let zeros = both_zero (chunk front) (chunk back) in
    let parts = All-append_iff IsZero front back in
    let whole : front ++ back ≡ ip = halves ip h in
    (
      refl,
      ap some (ntohs-htons port hp),
      refl,
      refl,
      refl,
      (
        (λ w.
            subst (All IsZero) whole (
              parts.1 ((chunk-IsZero front).0 (zeros.0 w).0, (chunk-IsZero back).0 (zeros.0 w).1))),
        (λ all.
            let each = parts.0 (subst (All IsZero) (sym whole) all) in
            zeros.1 ((chunk-IsZero front).1 each.0, (chunk-IsZero back).1 each.1)),
      ),
    )
