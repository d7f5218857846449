-- ===== src/Flow/Engine/Batch.antt =====
-- Batches of independent steps (`execute_batch` of moonflow/core_engine.mbt).
use moonbit.Prelude.{◌≡◌, String, Bool, true, Option, none, some, List, [], ◌∷◌, All, if◌then◌else◌}
use moonbit.Prelude.Dict.{Dict, get, put, contains}
use moonbit.Flow.Types.{WorkflowError, step_failed, Result, ok, err}
use moonbit.Flow.Engine.{Platform, Engine, call_handler}

-- The first of the errors.
abbrev pub or_first : Option WorkflowError → WorkflowError → Option WorkflowError
or_first none x = some x
or_first (some y) x = some y

abbrev pub conclusion : {W J : Type 0} → Platform W J → Option WorkflowError → Dict J → Result J
conclusion pf (some x) merged = err x
conclusion pf none merged = ok (pf.object merged)

module _ {W J S : Type 0} where
  -- `again` is the rest of the loop.
  unfoldable pub on_step :
      Bool
      → String
      → (Dict J → Option WorkflowError → Engine W J S → Result J × Engine W J S)
      → Dict J
      → Option WorkflowError
      → Result J × Engine W J S
      → Result J × Engine W J S
  on_step fail_fast name again merged first_error (ok output, e) =
      again (put name output merged) first_error e
  on_step fail_fast name again merged first_error (err x, e) =
      if fail_fast then (err x, e) else again merged (or_first first_error x) e

  -- The steps called one after the other, whatever comes of them, and what came of each.
  pub outcomes : List String → J → Engine W J S → List (String × Result J) × Engine W J S
  outcomes [] input e = ([], e)
  outcomes (name ∷ names) input e = elim (get name e.registry) [
    | none ↦ outcomes names input e
    | some handler ↦
        let (r, e') = call_handler handler input e in
        let (rest, end) = outcomes names input e' in ((name, r) ∷ rest, end)
  ]

module _ {W J S : Type 0} (pf : Platform W J) where
  unfoldable pub batch_from :
      List String
      → J
      → Bool
      → Dict J
      → Option WorkflowError
      → Engine W J S
      → Result J × Engine W J S
  unfolding on_step
  batch_from [] input fail_fast merged first_error e = (conclusion pf first_error merged, e)
  batch_from (name ∷ names) input fail_fast merged first_error e = elim (get name e.registry) [
    | some handler ↦
        on_step fail_fast name (batch_from names input fail_fast) merged first_error
          (call_handler handler input e)
    | none ↦ (err (step_failed name "handler not found"), e)
  ]

  unfoldable pub execute_batch : List String → J → Bool → Engine W J S → Result J × Engine W J S
  unfolding batch_from
  execute_batch step_names input fail_fast e = batch_from step_names input fail_fast [] none e

-- The first error among results, and the outputs by their names.
pub first_error :
    {J : Type 0} → Option WorkflowError → List (String × Result J) → Option WorkflowError
first_error found [] = found
first_error found ((name, ok output) ∷ rest) = first_error found rest
first_error found ((name, err x) ∷ rest) = first_error (or_first found x) rest

pub outputs : {J : Type 0} → Dict J → List (String × Result J) → Dict J
outputs merged [] = merged
outputs merged ((name, ok output) ∷ rest) = outputs (put name output merged) rest
outputs merged ((name, err x) ∷ rest) = outputs merged rest

pub verdict :
    {W J : Type 0}
    → Platform W J
    → Option WorkflowError
    → Dict J
    → List (String × Result J)
    → Result J
unfolding first_error outputs
verdict pf found merged results = conclusion pf (first_error found results) (outputs merged results)

module _ {W J S : Type 0} (pf : Platform W J) where
  abbrev pub Registered : List String → Engine W J S → Type 0
  Registered names e = All (λ name. contains name e.registry ≡ true) names
