-- ===== src/Flow/Middleware/Breaker/Writes.antt =====
-- What a call writes to the breaker, against the breaker of the history.
use moonbit.Prelude.{
  ℕ, suc, ◌<◌, ◌≡◌, refl, Bool, false, List, ◌∷◌, arith, if◌then◌else◌, inl, inr, Bool-cases,
}
use moonbit.Prelude.Int.{ℤ, pos, ◌+ℤ◌, leb_ℤ, wrap32}
use moonbit.Flow.Middleware.Breaker.{
  CircuitState, closed, opened, on_ok, count_failure, note_time, trip,
}
use moonbit.Flow.Middleware.Breaker.History.{
  Outcome, succeeded, failed_at, streak, last_failure, tripped_by, tripped, breaker_of,
}

module _ (threshold reset : ℤ) where
  counted : (n : ℕ) → n < 2147483647 → wrap32 (pos n +ℤ pos 1) ≡ pos (suc n)
  unfolding wrap32 ◌+ℤ◌
  counted n h = ground arith

  -- What a failure makes of the breaker, whatever the state of the call was: the one of the history,
  -- or half open.
  pub after_failure :
      (h : List Outcome) (st : CircuitState) (now : ℤ)
      → streak h < 2147483647
      → (leb_ℤ threshold (pos (suc (streak h))) ≡ false → st ≡ closed)
      → trip (note_time now (count_failure (record (breaker_of threshold reset h) { state = st })))
        ≡ breaker_of threshold reset (failed_at now ∷ h)
  unfolding trip note_time count_failure breaker_of streak last_failure tripped tripped_by
  after_failure h st now bound stays =
      rw (counted (streak h) bound) (elim (Bool-cases (leb_ℤ threshold (pos (suc (streak h))))) [
        | inl t ↦ rw t refl
        | inr f ↦ rw (f, stays f) refl
      ])

  pub after_success :
      (h : List Outcome) (st : CircuitState)
      → on_ok (record (breaker_of threshold reset h) { state = st })
        ≡ breaker_of threshold reset (succeeded ∷ h)
  unfolding on_ok breaker_of streak last_failure tripped tripped_by
  after_success h st = refl

  pub state_of :
      (h : List Outcome) (b : Bool)
      → tripped threshold h ≡ b
      → (breaker_of threshold reset h).state ≡ (if b then opened else closed)
  unfolding breaker_of
  state_of h b t = rw t refl

  pub is_closed :
      (h : List Outcome)
      → tripped threshold h ≡ false
      → breaker_of threshold reset h ≡ record (breaker_of threshold reset h) { state = closed }
  unfolding breaker_of
  is_closed h f = rw f refl
