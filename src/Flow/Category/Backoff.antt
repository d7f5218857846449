-- ===== src/Flow/Category/Backoff.antt =====
-- The delays of an exponential backoff as long as they fit in 32 bits.
use native.Mathlib.Nat.{
  pow-suc, pow-zero, pow-succ', mul-one, mul_assoc, mul_comm, mul-pos, le-mul_of_pos_right,
}
use moonbit.Prelude.{ℕ, zero, suc, ◌+◌, ◌*◌, ◌^◌, ◌≤◌, ◌<◌, ◌≡◌, sym, ap, ◌∙◌, arith}
use moonbit.Prelude.Int.{pos, ◌-ℤ◌, ◌*ℤ◌, wrap32}
use moonbit.Flow.Category.{exponential_backoff, multiply_from, pow_int, delay_for_attempt}

times32 : (a b : ℕ) → a * b ≤ 2147483647 → wrap32 (pos a *ℤ pos b) ≡ pos (a * b)
unfolding wrap32 ◌*ℤ◌
times32 a b h = ground arith

pow-positive : (b n : ℕ) → 0 < b → 0 < b ^ n
pow-positive b zero h = rw pow-zero (omega arith)
pow-positive b (suc n) h = rw pow-suc (mul-pos (pow-positive b n h) h)

one_factor : (b n r : ℕ) → r * b ^ suc n ≡ r * b * b ^ n
one_factor b n r = ap (λ p. r * p) (pow-succ' b n) ∙ sym (mul_assoc r b (b ^ n))

within : (a b : ℕ) → a ≡ b → a ≤ 2147483647 → b ≤ 2147483647
within a b e h = omega (arith, e, h)

previous : (n : ℕ) → n < 2147483647 → wrap32 (pos (n + 1) -ℤ pos 1) ≡ pos n
unfolding wrap32 ◌-ℤ◌
previous n h = ground arith

multiply_from-pow :
    (b n r : ℕ) → 0 < b → r * b ^ n ≤ 2147483647 → multiply_from (pos b) n (pos r) ≡ pos (r * b ^ n)
unfolding multiply_from
multiply_from-pow b zero r h fits = ap pos (sym (rw pow-zero (mul-one r)))
multiply_from-pow b (suc n) r h fits =
    let step = le-mul_of_pos_right (r * b) (pow-positive b n h) in
    let fits' = within (r * b ^ suc n) (r * b * b ^ n) (one_factor b n r) fits in
    rw (times32 r b (omega (arith, step, fits')))
      (multiply_from-pow b n (r * b) h fits' ∙ ap pos (sym (one_factor b n r)))

one_times : (n : ℕ) → 1 * n ≡ n
one_times n = mul_comm 1 n ∙ mul-one n

power_fits : (r p : ℕ) → 0 < r → r * p ≤ 2147483647 → p ≤ 2147483647
power_fits r p h fits = omega (arith, le-mul_of_pos_right p h, mul_comm r p, fits)

-- The delay of the attempt `n + 1` of a backoff is the initial delay times the base to the power `n`,
-- where both are positive, `n` is below 2147483647 and the delay fits in an `Int`.
pub delay_for_attempt-pow :
    (initial base n : ℕ)
    → 0 < initial
    → 0 < base
    → n < 2147483647
    → initial * base ^ n ≤ 2147483647
    → delay_for_attempt (exponential_backoff (pos initial) (pos base)) (pos (n + 1))
      ≡ pos (initial * base ^ n)
unfolding delay_for_attempt pow_int
delay_for_attempt-pow initial base n hi hb short fits =
    let fits' = power_fits initial (base ^ n) hi fits in
    rw (previous n short, multiply_from-pow base n 1 hb (rw one_times fits'), one_times)
      (times32 initial (base ^ n) fits)
