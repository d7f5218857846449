-- ===== src/Flow/Patterns/Bulkhead.antt =====
-- The bulkhead (moonflow/pattern_lib.mbt) where calls through it are nested: a handler is run to its
-- end within the call, so that several calls are active at once only where one is made in the other.
use native.Mathlib.Nat.{add-zero, add-suc, suc-add}
use moonbit.Prelude.{
  ℕ, zero, suc, ◌+◌, ◌≤◌, ◌<◌, ◌≡◌, refl, sym, ap, ◌∙◌, arith, leb, true, false, if◌then◌else◌, inl,
  inr, Bool-cases,
}
use moonbit.Prelude.Int.{pos, ◌+ℤ◌, ◌-ℤ◌, leb_ℤ, wrap32}
use moonbit.Flow.Async.{run}
use moonbit.Flow.Types.{storage_error, err}
use moonbit.Flow.Engine.{StepExecutor, call}
use moonbit.Flow.Middleware.{Ref, RefLaws}
use moonbit.Flow.Patterns.{PatternBulkhead, enter_bulkhead, leave_bulkhead, enclose}

abbrev pub with_active : ℕ → ℕ → PatternBulkhead
with_active m n = record { max_concurrent = pos m; active_count = pos n }

enter_bulkhead-with_active :
    (m n : ℕ) → n < 2147483647 → enter_bulkhead (with_active m n) ≡ with_active m (suc n)
unfolding enter_bulkhead wrap32 ◌+ℤ◌
enter_bulkhead-with_active m n h = ground arith

leave_bulkhead-with_active :
    (m n : ℕ) → n < 2147483647 → leave_bulkhead (with_active m (suc n)) ≡ with_active m n
unfolding leave_bulkhead wrap32 ◌-ℤ◌
leave_bulkhead-with_active m n h = ground arith

is_full : (m n : ℕ) → m ≤ n → leb_ℤ (pos m) (pos n) ≡ true
is_full m n h = ground arith

has_room : (m n : ℕ) → n < m → leb_ℤ (pos m) (pos n) ≡ false
has_room m n h = ground arith

module _ {W : Type 0} (self : Ref W PatternBulkhead) (laws : RefLaws self) where
  same : (m n : ℕ) (w : W) → self.read w ≡ with_active m n → self.write (with_active m n) w ≡ w
  same m n w e = ap (λ b. self.write b w) (sym e) ∙ laws.write-read w

module _ {W J : Type 0} (self : Ref W PatternBulkhead) (laws : RefLaws self) where
  -- So many calls through the bulkhead, each made by the one before.
  abbrev pub nest : ℕ → StepExecutor W J → StepExecutor W J
  nest zero leaf = leaf
  nest (suc d) leaf = enclose self (nest d leaf)

  -- A call that leaves the bulkhead as it finds it.
  abbrev pub Keeps : StepExecutor W J → Type 0
  Keeps leaf = (input : J) (w : W) → self.read (call leaf input w).1 ≡ self.read w

  entering :
      (m n : ℕ) (inner : StepExecutor W J) (input : J) (w : W)
      → self.read w ≡ with_active m n
      → n < m
      → m ≤ 2147483647
      → call (enclose self inner) input w ≡ (
          let (r, w') = call inner input (self.write (with_active m (suc n)) w) in
          (r, self.write (leave_bulkhead (self.read w')) w'))
  unfolding enclose call run
  entering m n inner input w e less bound =
      rw (e, has_room m n less, enter_bulkhead-with_active m n (omega (arith, less, bound))) refl

  refusing :
      (m n : ℕ) (inner : StepExecutor W J) (input : J) (w : W)
      → self.read w ≡ with_active m n
      → m ≤ n
      → call (enclose self inner) input w ≡ (err (storage_error "bulkhead limit reached"), w)
  unfolding enclose call run
  refusing m n inner input w e le = rw (e, is_full m n le) refl

  -- Where the calls fit, the leaf is called with all of them active.
  nest_fits :
      (leaf : StepExecutor W J) (m d n : ℕ) (input : J) (w : W)
      → Keeps leaf
      → self.read w ≡ with_active m n
      → n + d ≤ m
      → m ≤ 2147483647
      → call (nest d leaf) input w ≡ (
          let (r, w') = call leaf input (self.write (with_active m (n + d)) w) in
          (r, self.write (with_active m n) w'))
  nest_fits leaf m zero n input w keeps e fits bound =
      rw (add-zero, same self laws m n w e)
        (ap (λ w'. ((call leaf input w).0, w'))
          (sym (same self laws m n (call leaf input w).1 (keeps input w ∙ e))))
  nest_fits leaf m (suc d) n input w keeps e fits bound =
      let w' = self.write (with_active m (suc n)) w in
      entering m n (nest d leaf) input w e (omega arith) bound
      ∙ rw
          (
            nest_fits leaf m d (suc n) input w' keeps (laws.read-write _ w) (omega arith) bound,
            laws.read-write,
            leave_bulkhead-with_active m n (omega arith),
            laws.write-write,
            laws.write-write,
            add-suc,
            suc-add,
          )
          refl

  nest_full :
      (leaf : StepExecutor W J) (m d n : ℕ) (input : J) (w : W)
      → self.read w ≡ with_active m n
      → n ≤ m
      → m < n + d
      → m ≤ 2147483647
      → call (nest d leaf) input w ≡ (err (storage_error "bulkhead limit reached"), w)
  nest_full leaf m zero n input w e le full bound = absurd (omega arith)
  nest_full leaf m (suc d) n input w e le full bound = elim (Bool-cases (leb m n)) [
    | inl t ↦ refusing m n (nest d leaf) input w e (ground arith)
    | inr f ↦
        let w' = self.write (with_active m (suc n)) w in
        entering m n (nest d leaf) input w e (ground arith) bound
        ∙ rw
            (
              nest_full leaf m d (suc n) input w' (laws.read-write _ w) (ground arith) (omega arith)
                  bound,
              laws.read-write,
              leave_bulkhead-with_active m n (ground arith),
              laws.write-write,
              same self laws m n w e,
            )
            refl
  ]

  -- Calls nested `d` deep, where `n` are active already: as long as `n + d` does not pass the limit
  -- the innermost handler is called with all of them counted, and afterwards `n` are counted again.
  -- Where it passes the limit the handler is not called, the result is the error of the bulkhead and
  -- the world is as before.
  pub nest_lem :
      (leaf : StepExecutor W J) (m d n : ℕ) (input : J) (w : W)
      → Keeps leaf
      → self.read w ≡ with_active m n
      → n ≤ m
      → m ≤ 2147483647
      → call (nest d leaf) input w ≡ (
          if leb (n + d) m
          then (let (r, w') = call leaf input (self.write (with_active m (n + d)) w) in
              (r, self.write (with_active m n) w'))
          else (err (storage_error "bulkhead limit reached"), w))
  nest_lem leaf m d n input w keeps e le bound = elim (Bool-cases (leb (n + d) m)) [
    | inl t ↦ rw t (nest_fits leaf m d n input w keeps e (ground (arith, t)) bound)
    | inr f ↦ rw f (nest_full leaf m d n input w e le (ground (arith, f)) bound)
  ]
