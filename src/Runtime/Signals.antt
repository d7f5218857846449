-- ===== src/Runtime/Signals.antt =====
-- The job that waits for signals and sends them through the pipe of the completions
-- (.mooncakes/moonbitlang/async/src/internal/event_loop/thread_pool.c), and how the event loop tells
-- them from completions (event_loop.mbt there). What `sigwait` returns each time is a list, at the
-- end of which the job still waits: `none`. Integers are those of 32 bits in two's complement.
use moonbit.Prelude.{
  ◌≡◌, refl, false, Option, none, some, List, [], ◌∷◌, ◌++◌, map, arith, All, if◌then◌else◌,
}
use moonbit.Prelude.Int.{ℤ, pos, negsuc, ltb_ℤ, ◌+ℤ◌, ◌-ℤ◌, ◌≤ℤ◌}
use moonbit.Runtime.Calls.{eq_ℤ}
use moonbit.Runtime.Job.{Job, make_job}
use moonbit.Runtime.Pool.{sigusr2}

-- `x | (1 << 31)`
unfoldable pub set_top_bit : ℤ → ℤ
unfolding ◌-ℤ◌
set_top_bit x = if ltb_ℤ x (pos 0) then x else x -ℤ pos 2147483648

-- `x ^ (1 << 31)`
unfoldable pub flip_top_bit : ℤ → ℤ
unfolding ◌-ℤ◌ ◌+ℤ◌
flip_top_bit x = if ltb_ℤ x (pos 0) then x +ℤ pos 2147483648 else x -ℤ pos 2147483648

-- What the event loop takes an integer from the pipe for: a completion, where the top bit is 0.
pub data Message : Type 0 where
  completion signal : ℤ → Message

unfoldable pub read_message : ℤ → Message
unfolding flip_top_bit
read_message job_id =
    if ltb_ℤ job_id (pos 0) then signal (flip_top_bit job_id) else completion job_id

pub record SigwaitJob : Type 0 where
  pub job : Job
  pub signals : List ℤ

unfoldable pub make_sigwait_job : List ℤ → SigwaitJob
unfolding make_job
make_sigwait_job signals = record { job = make_job; signals = signals ++ sigusr2 ∷ [] }

-- The error number and the signal of one `sigwait`.
pub record Waited : Type 0 where
  pub err : ℤ
  pub sig : ℤ

-- The loop, with what is written to the pipe, in order.
unfoldable pub sigwait_job_worker : SigwaitJob → List Waited → Option (SigwaitJob × List ℤ)
unfolding set_top_bit eq_ℤ
sigwait_job_worker self [] = none
sigwait_job_worker self (w ∷ ws) =
    let rest = sigwait_job_worker self ws in
    if ltb_ℤ (pos 0) w.err
    then some (record self { job = record self.job { err = w.err } }, [])
    else if eq_ℤ w.sig sigusr2
    then some (self, [])
    else elim rest [ none ↦ none | some (j, written) ↦ some (j, set_top_bit w.sig ∷ written) ]

abbrev pub caught : ℤ → Waited
caught sig = record { err = pos 0; sig = sig }

-- A signal that the job forwards: a positive number, not the one that ends it.
abbrev pub IsForwarded : ℤ → Type 0
IsForwarded sig = (eq_ℤ sig sigusr2 ≡ false) × (pos 0 ≤ℤ sig) × (sig ≤ℤ pos 2147483647)

-- The event loop reads a signal that was sent as that signal.
set_top_bit-read_message :
    (sig : ℤ) → pos 0 ≤ℤ sig → sig ≤ℤ pos 2147483647 → read_message (set_top_bit sig) ≡ signal sig
unfolding read_message set_top_bit flip_top_bit ◌-ℤ◌ ◌+ℤ◌
set_top_bit-read_message (pos n) h small = ground arith
set_top_bit-read_message (negsuc n) h small = ground arith

-- The job ends without an error when SIGUSR2 comes, whatever would come after it; until then it has
-- sent every signal, in order, and the event loop reads what was sent as these signals.
sigwait_job_worker_lem :
    (self : SigwaitJob) (sigs : List ℤ) (rest : List Waited)
    → All IsForwarded sigs
    → (sigwait_job_worker self (map caught sigs ++ caught sigusr2 ∷ rest)
        ≡ some (self, map set_top_bit sigs))
      × (map read_message (map set_top_bit sigs) ≡ map signal sigs)
unfolding sigwait_job_worker eq_ℤ
sigwait_job_worker_lem self [] rest h = (refl, refl)
sigwait_job_worker_lem self (sig ∷ sigs) rest ((other, above, small), hs) =
    let (ends, reads) = sigwait_job_worker_lem self sigs rest hs in
    (rw (other, ends) refl, rw (set_top_bit-read_message sig above small, reads) refl)
