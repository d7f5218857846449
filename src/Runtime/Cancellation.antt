-- ===== src/Runtime/Cancellation.antt =====
-- The signals that cancel the program
-- (.mooncakes/moonbitlang/async/src/internal/event_loop/signal.c), on Linux. A text is its bytes.
use moonbit.Prelude.{
  ℕ, ◌≡◌, refl, ap, ◌∙◌, Bool, true, false, not, ◌||◌, ◌&&◌, ◌==◌, if◌then◌else◌, Bool-cases, inl,
  inr, List, [], ◌∷◌, arith,
}
use moonbit.Prelude.Int.{ℤ, pos, negsuc, ltb_ℤ}
use moonbit.Runtime.Calls.{eq_ℤ}
use moonbit.Runtime.Pool.{SignalSet, sigaddset, sigdelset}

-- `0 == strcmp(a, b)`
unfoldable pub same_text : List ℕ → List ℕ → Bool
same_text [] [] = true
same_text (a ∷ s) (b ∷ t) = a == b && same_text s t
same_text _ _ = false

abbrev pub text_sigint : List ℕ
text_sigint = b'S' ∷ b'I' ∷ b'G' ∷ b'I' ∷ b'N' ∷ b'T' ∷ []

abbrev pub text_sigterm : List ℕ
text_sigterm = b'S' ∷ b'I' ∷ b'G' ∷ b'T' ∷ b'E' ∷ b'R' ∷ b'M' ∷ []

abbrev pub text_sighup : List ℕ
text_sighup = b'S' ∷ b'I' ∷ b'G' ∷ b'H' ∷ b'U' ∷ b'P' ∷ []

-- SIGINT, SIGTERM and SIGHUP are 2, 15 and 1.
unfoldable pub get_signal_by_name : List ℕ → ℤ
unfolding same_text
get_signal_by_name name =
    if same_text name text_sigint
    then pos 2
    else if same_text name text_sigterm
    then pos 15
    else if same_text name text_sighup
    then pos 1
    else negsuc 0

abbrev pub text_sigbreak : List ℕ
text_sigbreak = b'S' ∷ b'I' ∷ b'G' ∷ b'B' ∷ b'R' ∷ b'E' ∷ b'A' ∷ b'K' ∷ []

-- Of signal.mbt
unfoldable pub all_signals : List ℤ
unfolding get_signal_by_name
all_signals =
    get_signal_by_name text_sigint
    ∷ get_signal_by_name text_sigterm
    ∷ get_signal_by_name text_sighup
    ∷ get_signal_by_name text_sigbreak
    ∷ []

-- The two loops; names that are no signals are passed over.
unfoldable pub without_signals : List ℤ → SignalSet → SignalSet
unfolding sigdelset
without_signals [] set = set
without_signals (sig ∷ signals) set =
    without_signals signals (if ltb_ℤ sig (pos 0) then set else sigdelset set sig)

unfoldable pub with_signals : List ℤ → SignalSet → SignalSet
unfolding sigaddset
with_signals [] set = set
with_signals (sig ∷ signals) set =
    with_signals signals (if ltb_ℤ sig (pos 0) then set else sigaddset set sig)

-- The mask of the calling thread, before and after.
unfoldable pub set_global_cancellation_signals : List ℤ → List ℤ → SignalSet → SignalSet
unfolding without_signals with_signals
set_global_cancellation_signals all_signals signals blocked =
    with_signals signals (without_signals all_signals blocked)

unfoldable pub among : ℤ → List ℤ → Bool
unfolding eq_ℤ
among s [] = false
among s (sig ∷ signals) = eq_ℤ s sig || among s signals

not_among_negative : (n : ℕ) (sig : ℤ) → ltb_ℤ sig (pos 0) ≡ true → eq_ℤ (pos n) sig ≡ false
unfolding eq_ℤ
not_among_negative n sig h = ground arith

de_morgan : (a b c : Bool) → (not b && (not a && c)) ≡ (not (a || b) && c)
de_morgan true true c = refl
de_morgan true false c = refl
de_morgan false b c = refl

or_swap : (a b c : Bool) → (b || (a || c)) ≡ ((a || b) || c)
or_swap true true c = refl
or_swap true false c = refl
or_swap false b c = refl

without_signals_lem :
    (n : ℕ) (signals : List ℤ) (set : SignalSet)
    → without_signals signals set (pos n) ≡ (not (among (pos n) signals) && set (pos n))
unfolding without_signals among sigdelset
without_signals_lem n [] set = refl
without_signals_lem n (sig ∷ signals) set = elim (Bool-cases (ltb_ℤ sig (pos 0))) [
  | inl unknown ↦ rw (unknown, not_among_negative n sig unknown) (without_signals_lem n signals set)
  | inr known ↦ rw known (
      without_signals_lem n signals (sigdelset set sig)
      ∙ de_morgan (eq_ℤ (pos n) sig) (among (pos n) signals) (set (pos n)))
]

with_signals_lem :
    (n : ℕ) (signals : List ℤ) (set : SignalSet)
    → with_signals signals set (pos n) ≡ (among (pos n) signals || set (pos n))
unfolding with_signals among sigaddset
with_signals_lem n [] set = refl
with_signals_lem n (sig ∷ signals) set = elim (Bool-cases (ltb_ℤ sig (pos 0))) [
  | inl unknown ↦ rw (unknown, not_among_negative n sig unknown) (with_signals_lem n signals set)
  | inr known ↦ rw known (
      with_signals_lem n signals (sigaddset set sig)
      ∙ or_swap (eq_ℤ (pos n) sig) (among (pos n) signals) (set (pos n)))
]

known_signals : (n : ℕ) → among (pos n) all_signals ≡ (n == 2 || n == 15 || n == 1)
unfolding among all_signals get_signal_by_name same_text eq_ℤ
known_signals n = ground arith

-- Exactly the signals asked for are blocked for `sigwait`, of those that the program knows; SIGBREAK,
-- which it does not know on Linux, changes nothing, and another signal is blocked if it was before.
set_global_cancellation_signals_lem :
    (n : ℕ) (signals : List ℤ) (blocked : SignalSet)
    → set_global_cancellation_signals all_signals signals blocked (pos n)
      ≡ (among (pos n) signals || (not (n == 2 || n == 15 || n == 1) && blocked (pos n)))
unfolding set_global_cancellation_signals
set_global_cancellation_signals_lem n signals blocked =
    with_signals_lem n signals (without_signals all_signals blocked)
    ∙ ap (λ b. among (pos n) signals || b)
        (without_signals_lem n all_signals blocked
          ∙ ap (λ b. not b && blocked (pos n)) (known_signals n))
