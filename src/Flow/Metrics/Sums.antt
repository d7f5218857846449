-- ===== src/Flow/Metrics/Sums.antt =====
-- The counters along a sequence of recorded steps.
use moonbit.Prelude.{
  ℕ, ◌+◌, ◌^◌, ◌≤◌, ◌<◌, ◌≡◌, refl, ap, ◌∙◌, List, [], ◌∷◌, arith, length, ltb, if◌then◌else◌,
}
use moonbit.Prelude.Int.{pos, ◌+ℤ◌, wrap32, wrap64}
use moonbit.Flow.Metrics.{WorkflowMetrics, new, record_step}

abbrev pub sum : List ℕ → ℕ
sum [] = 0
sum (t ∷ ts) = t + sum ts

-- Steps recorded one after the other, by the milliseconds that they took.
pub record_steps : WorkflowMetrics → List ℕ → WorkflowMetrics
record_steps m [] = m
record_steps m (t ∷ ts) = record_steps (record_step m (pos t)) ts

add32 : (a b : ℕ) → a + b ≤ 2147483647 → wrap32 (pos a +ℤ pos b) ≡ pos (a + b)
unfolding wrap32 ◌+ℤ◌
add32 a b h = ground arith

add64 : (a b : ℕ) → a + b < 2 ^ 63 → wrap64 (pos a +ℤ pos b) ≡ pos (a + b)
unfolding wrap64 ◌+ℤ◌
add64 a b h = ground arith

record_steps-sums :
    (ts : List ℕ) (m : WorkflowMetrics) (k s : ℕ)
    → m.total_steps_executed ≡ pos k
    → m.total_step_time_ms ≡ pos s
    → k + length ts ≤ 2147483647
    → s + sum ts < 2 ^ 63
    → ((record_steps m ts).total_steps_executed ≡ pos (k + length ts))
      × ((record_steps m ts).total_step_time_ms ≡ pos (s + sum ts))
unfolding record_steps record_step
record_steps-sums [] m k s hk hs few short = (hk ∙ ap pos (omega arith), hs ∙ ap pos (omega arith))
record_steps-sums (t ∷ ts) m k s hk hs few short =
    let (p, q) =
      record_steps-sums ts (record_step m (pos t)) (k + 1) (s + t)
        (rw hk (add32 k 1 (omega (arith, few)))) (rw hs (add64 s t (omega (arith, short))))
        (omega (arith, few)) (omega (arith, short)) in
    (p ∙ ap pos (omega arith), q ∙ ap pos (omega arith))

-- The least and the greatest of a number and the members of a list.
abbrev pub least : ℕ → List ℕ → ℕ
least b [] = b
least b (t ∷ ts) = least (if ltb t b then t else b) ts

abbrev pub greatest : ℕ → List ℕ → ℕ
greatest b [] = b
greatest b (t ∷ ts) = greatest (if ltb b t then t else b) ts

record_steps-bounds :
    (ts : List ℕ) (m : WorkflowMetrics) (lo hi : ℕ)
    → m.min_step_time_ms ≡ pos lo
    → m.max_step_time_ms ≡ pos hi
    → ((record_steps m ts).min_step_time_ms ≡ pos (least lo ts))
      × ((record_steps m ts).max_step_time_ms ≡ pos (greatest hi ts))
unfolding record_steps record_step
record_steps-bounds [] m lo hi hlo hhi = (hlo, hhi)
record_steps-bounds (t ∷ ts) m lo hi hlo hhi =
    record_steps-bounds ts (record_step m (pos t)) (if ltb t lo then t else lo)
      (if ltb hi t then t else hi) (rw hlo (ground arith)) (rw hhi (ground arith))

-- After the times of any steps have been recorded, none of them negative, up to 2147483647 of them
-- and less than 2 ^ 63 milliseconds in all, the metrics of a new engine hold their number, the sum of
-- the times, the least of 2147483647 and the times, and the greatest of 0 and the times.
pub record_steps_lem :
    (ts : List ℕ)
    → length ts ≤ 2147483647
    → sum ts < 2 ^ 63
    → ((record_steps new ts).total_steps_executed ≡ pos (length ts))
      × ((record_steps new ts).total_step_time_ms ≡ pos (sum ts))
      × ((record_steps new ts).min_step_time_ms ≡ pos (least 2147483647 ts))
      × ((record_steps new ts).max_step_time_ms ≡ pos (greatest 0 ts))
unfolding new
record_steps_lem ts few short =
    let (p, q) =
      record_steps-sums ts new 0 0 refl refl (omega (arith, few)) (omega (arith, short)) in
    let (lo, hi) = record_steps-bounds ts new 2147483647 0 refl refl in
    (p ∙ ap pos (omega arith), q ∙ ap pos (omega arith), lo, hi)
