-- ===== src/Prelude/Bytes.antt =====
-- Numbers in memory: a byte is below 256, the lowest byte comes first.
use moonbit.Prelude.Lists.{length}
use Prim.Native.Nat.{ℕ, zero, suc, ◌+◌, ◌*◌, ◌/◌, ◌%◌, ◌^◌, ◌<◌, ◌≤◌, ◌-◌}
use mathlib.Core.Path.{◌≡◌, refl, ap}
use mathlib.Core.List.{List, [], ◌∷◌, ◌++◌}
use mathlib.Core.Option.{Option, none, some}
use native.Mathlib.Omega.{arith}

-- The bytes from an offset on.
unfoldable pub drop {ℓ} : {A : Type ℓ} → ℕ → List A → List A
drop zero xs = xs
drop (suc n) [] = []
drop (suc n) (x ∷ xs) = drop n xs

pub drop-length {ℓ} : {A : Type ℓ} (xs ys : List A) → drop (length xs) (xs ++ ys) ≡ ys
unfolding drop
drop-length [] ys = refl
drop-length (x ∷ xs) ys = drop-length xs ys

-- A number of so many bytes; there is none where the memory ends before.
unfoldable pub read_le : ℕ → List ℕ → Option ℕ
read_le zero bytes = some 0
read_le (suc width) [] = none
read_le (suc width) (b ∷ bytes) = elim (read_le width bytes) [
  | none ↦ none
  | some v ↦ some (b + 256 * v)
]

unfoldable pub write_le : ℕ → ℕ → List ℕ
write_le zero v = []
write_le (suc width) v = v % 256 ∷ write_le width (v / 256)

pub length-write_le : (width v : ℕ) → length (write_le width v) ≡ width
unfolding write_le
length-write_le zero v = refl
length-write_le (suc width) v = ap suc (length-write_le width (v / 256))

pow_suc : (width : ℕ) → 256 ^ suc width ≡ 256 * 256 ^ width
pow_suc width = omega arith

pub read_le-write_le :
    (width v : ℕ) (rest : List ℕ)
    → v < 256 ^ width
    → read_le width (write_le width v ++ rest) ≡ some v
unfolding read_le write_le
read_le-write_le zero v rest h = ap some (omega arith)
read_le-write_le (suc width) v rest h =
    let shorter : v / 256 < 256 ^ width = omega (arith, pow_suc width) in
    rw (read_le-write_le width (v / 256) rest shorter) (ap some (omega arith))

-- As many as there are, where there are fewer.
unfoldable pub take {ℓ} : {A : Type ℓ} → ℕ → List A → List A
take zero xs = []
take (suc n) [] = []
take (suc n) (x ∷ xs) = x ∷ take n xs

pub take-append-drop {ℓ} : {A : Type ℓ} (n : ℕ) (xs : List A) → take n xs ++ drop n xs ≡ xs
unfolding take drop
take-append-drop zero xs = refl
take-append-drop (suc n) [] = refl
take-append-drop (suc n) (x ∷ xs) = ap (λ l. x ∷ l) (take-append-drop n xs)

pub take_all {ℓ} : {A : Type ℓ} (n : ℕ) (xs : List A) → length xs ≤ n → take n xs ≡ xs
unfolding take
take_all zero [] h = refl
take_all zero (x ∷ xs) h = absurd (omega arith)
take_all (suc n) [] h = refl
take_all (suc n) (x ∷ xs) h = ap (λ l. x ∷ l) (take_all n xs (omega arith))

pub length-drop {ℓ} : {A : Type ℓ} (n : ℕ) (xs : List A) → length (drop n xs) ≡ length xs - n
unfolding drop
length-drop zero xs = omega arith
length-drop (suc n) [] = omega arith
length-drop (suc n) (x ∷ xs) = omega (arith, length-drop n xs)
