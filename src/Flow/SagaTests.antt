-- ===== src/Flow/SagaTests.antt =====
-- A saga with two steps and one that fails. The world is the list of what the handlers did, the
-- latest first.
use moonbit.Prelude.{Option, none, String, arith, ℕ, ◌+◌, ◌≡◌, refl, List, [], ◌∷◌, ◌++◌}
use moonbit.Prelude.Int.{pos}
use moonbit.Flow.Async.{pure, run}
use moonbit.Flow.Types.{step_failed, ok, err}
use moonbit.Flow.Engine.{StepExecutor, call}
use moonbit.Flow.Engine.Retries.{AlwaysFails}
use moonbit.Flow.Saga.{SagaStep, executed, execute, execute_with_retry, retry_until}
use moonbit.Flow.Saga.Rollback.{execute-undo, all_forward, then_forward, Undone, latest_first, told}
use moonbit.Flow.Saga.Retry.{execute_with_retry-undo, retry_until_never_ends, up_to, unless_ok}

abbrev World : Type 0
World = List ℕ

abbrev doing : ℕ → StepExecutor World ℕ
doing n input w = (pure (ok (input + 1)), n ∷ w)

abbrev refusing : StepExecutor World ℕ
refusing input w = (pure (err (step_failed "c" "refused")), w)

abbrev debit : SagaStep World ℕ
debit = record { name = "debit"; forward = doing 1; compensate = doing 10 }

abbrev credit : SagaStep World ℕ
credit = record { name = "credit"; forward = doing 2; compensate = doing 20 }

abbrev notify : SagaStep World ℕ
notify = record { name = "notify"; forward = refusing; compensate = doing 30 }

execute-undo_example :
    (execute (debit ∷ credit ∷ []) 0 [] ≡ executed (ok 2) (2 ∷ 1 ∷ []))
    × ((text : Option String) × (end : World) × Undone
          (latest_first (debit ∷ credit ∷ []) [])
          2
          (2 ∷ 1 ∷ [])
          text
          end
        × (execute ((debit ∷ credit ∷ []) ++ (notify ∷ debit ∷ [])) 0 []
            ≡ executed (err (told (step_failed "c" "refused") text)) end))
unfolding all_forward then_forward call
execute-undo_example =
    execute-undo (debit ∷ credit ∷ []) notify (debit ∷ []) 0 2 [] (2 ∷ 1 ∷ []) (2 ∷ 1 ∷ [])
      (step_failed "c" "refused") refl refl

-- Two attempts are made of the last step, which fails in both.
abbrev stubborn : StepExecutor World ℕ
stubborn input w = (pure (err (step_failed "d" "refused")), 3 ∷ w)

abbrev ship : SagaStep World ℕ
ship = record { name = "ship"; forward = stubborn; compensate = doing 40 }

execute_with_retry-undo_example :
    (execute_with_retry 3 (pos 1) (debit ∷ []) 0 [] ≡ executed (ok 1) (1 ∷ []))
    × ((text : Option String) × (end : World) × Undone
          (latest_first (debit ∷ []) [])
          1
          (3 ∷ 3 ∷ 1 ∷ [])
          text
          end
        × (execute_with_retry 3 (pos 1) ((debit ∷ []) ++ (ship ∷ [])) 0 []
            ≡ executed (err (step_failed "d" "refused")) end))
unfolding all_forward then_forward call up_to unless_ok
execute_with_retry-undo_example =
    execute_with_retry-undo 1 3 (debit ∷ []) ship [] 0 1 [] (1 ∷ []) (3 ∷ 3 ∷ 1 ∷ [])
      (step_failed "d" "refused") (omega arith) (omega arith) refl refl

stubborn-AlwaysFails : AlwaysFails stubborn
unfolding run
stubborn-AlwaysFails input w = tt

retry_until_never_ends_example : retry_until 1000 (pos 2147483647) stubborn 7 [] ≡ none
retry_until_never_ends_example = retry_until_never_ends stubborn 7 1000 [] stubborn-AlwaysFails
