-- ===== src/Flow/Saga/Rollback.antt =====
-- What a saga does when a step fails (moonflow/core_saga.mbt).
use Prim.Native.String.{◌++◌ as ◌++ₛ◌}
use moonbit.Prelude.{
  String, ℕ, suc, ◌≡◌, refl, ap, sym, ◌∙◌, Option, none, some, List, [], ◌∷◌, ◌++◌, length,
  get_elem?, length-append, arith,
}
use mathlib.Core.List.{append_assoc}
use moonbit.Flow.Types.{WorkflowError, Result, ok, err}
use moonbit.Flow.Engine.{StepExecutor, call}
use moonbit.Flow.Saga.{
  SagaStep, Compensated, compensated, Executed, executed, saga_err_str, on_compensated,
  compensate_at, compensate, report, on_forward, execute_from, execute,
}

module _ {W J : Type 0} where
  -- What follows a forward action, if it succeeds.
  unfoldable pub then_forward : (J → W → Option (J × W)) → Result J × W → Option (J × W)
  then_forward next (ok output, w) = next output w
  then_forward next (err x, w) = none

  -- The compensations of the steps of a list in its order, each on the output of the one before, up
  -- to the first that fails: its text, if one does, and the world after.
  pub data Undone : List (SagaStep W J) → J → W → Option String → W → Type 0 where
    all_undone : {input : J} {w : W} → Undone [] input w none w
    undone :
        {step : SagaStep W J} {steps : List (SagaStep W J)} {input output : J} {w w' w'' : W}
        {text : Option String}
        → call step.compensate input w ≡ (ok output, w')
        → Undone steps output w' text w''
        → Undone (step ∷ steps) input w text w''
    not_undone :
        {step : SagaStep W J} {steps : List (SagaStep W J)} {input : J} {w w' : W}
        {x : WorkflowError}
        → call step.compensate input w ≡ (err x, w')
        → Undone
            (step ∷ steps)
            input
            w
            (some ("compensation for '" ++ₛ step.name ++ₛ "' failed: " ++ₛ saga_err_str x))
            w'

  -- The compensations of steps with these indices.
  record Compensates (steps : List (SagaStep W J)) (completed : List ℕ) (done : List (SagaStep W J))
      (input : J) (w : W) : Type 0 where
    text : Option String
    after : W
    how : Undone done input w text after
    result : compensate steps completed input w ≡ compensated text after

  -- The steps that were done, the latest first.
  abbrev pub latest_first : List (SagaStep W J) → List (SagaStep W J) → List (SagaStep W J)
  latest_first [] done = done
  latest_first (step ∷ steps) done = latest_first steps (step ∷ done)

  -- The indices are those of the steps.
  abbrev Names : List (SagaStep W J) → List ℕ → List (SagaStep W J) → Type 0
  Names steps [] [] = Unit
  Names steps (i ∷ completed) (step ∷ done) =
      (get_elem? steps i ≡ some step) × Names steps completed done
  Names steps _ _ = ⊥

  undo_first :
      (steps : List (SagaStep W J)) (i : ℕ) (completed : List ℕ) (step : SagaStep W J)
      (done : List (SagaStep W J)) (input : J) (w : W) (rw' : Result J × W)
      → get_elem? steps i ≡ some step
      → call step.compensate input w ≡ rw'
      → ((input : J) (w : W) → Compensates steps completed done input w)
      → Compensates steps (i ∷ completed) (step ∷ done) input w
  unfolding compensate compensate_at on_compensated
  undo_first steps i completed step done input w (ok output, w') at e later =
      let c = later output w' in
      record { text = c.text; after = c.after; how = undone e c.how; result = rw (at, e) c.result }
  undo_first steps i completed step done input w (err x, w') at e later = record {
    text = _;
    after = w';
    how = not_undone e;
    result = rw (at, e) refl;
  }

  compensates :
      (steps : List (SagaStep W J)) (completed : List ℕ) (done : List (SagaStep W J)) (input : J)
      (w : W)
      → Names steps completed done
      → Compensates steps completed done input w
  unfolding compensate
  compensates steps [] [] input w names = record {
    text = none;
    after = w;
    how = all_undone;
    result = refl;
  }
  compensates steps [] (step ∷ done) input w names = absurd names
  compensates steps (i ∷ completed) [] input w names = absurd names
  compensates steps (i ∷ completed) (step ∷ done) input w names =
      undo_first steps i completed step done input w (call step.compensate input w) names.0 refl
        (λ x v. compensates steps completed done x v names.1)

  elem_at :
      (prefix rest : List (SagaStep W J)) (step : SagaStep W J)
      → get_elem? (prefix ++ (step ∷ rest)) (length prefix) ≡ some step
  elem_at [] rest step = refl
  elem_at (x ∷ prefix) rest step = elem_at prefix rest step

module _ {W J : Type 0} (acts : StepExecutor W J → J → W → Result J × W) where
  -- All forward actions succeed, each on the output of the one before: the last output and the world.
  unfoldable pub all_forward : List (SagaStep W J) → J → W → Option (J × W)
  unfolding then_forward
  all_forward [] input w = some (input, w)
  all_forward (step ∷ steps) input w = then_forward (all_forward steps) (acts step.forward input w)

module _ {W J : Type 0} (acts : StepExecutor W J → J → W → Result J × W)
    (attempt : StepExecutor W J → J → W → Option (Result J × W))
    (does : (handler : StepExecutor W J) (input : J) (w : W)
      → attempt handler input w ≡ some (acts handler input w))
    (reported : WorkflowError → Compensated W J → Executed W J) where
  value_or : J × W → Option (J × W) → J × W
  value_or q none = q
  value_or q (some r) = r

  -- A step whose forward action succeeds, where the rest does.
  forward_on :
      (again : J → W → Executed W J) (failed : WorkflowError → W → Executed W J)
      (before : List (SagaStep W J)) (end : J × W) (result : Executed W J) (r : Result J × W)
      → then_forward (all_forward acts before) r ≡ some end
      → ((output : J) (w : W)
          → all_forward acts before output w ≡ some end
          → again output w ≡ result)
      → on_forward again failed (some r) ≡ result
  unfolding then_forward on_forward
  forward_on again failed before end result (ok output, w) ran later = later output w ran
  forward_on again failed before end result (err x, w) ran later = absurd cc

  -- What the failure of a step comes to.
  pub record Undoes (done : List (SagaStep W J)) (input : J) (w : W) (x : WorkflowError)
      (result : Executed W J) : Type 0 where
    pub text : Option String
    pub after : W
    pub how : Undone done input w text after
    pub told : result ≡ reported x (compensated text after)

  -- One forward action, by its result.
  after_forward :
      (step : SagaStep W J) (before rest steps : List (SagaStep W J)) (completed : List ℕ)
      (done : List (SagaStep W J)) (i : ℕ) (input output : J) (w w' w'' : W) (x : WorkflowError)
      (r : Result J × W)
      → acts step.forward input w ≡ r
      → then_forward (all_forward acts before) r ≡ some (output, w')
      → ((out : J) (v : W)
          → all_forward acts before out v ≡ some (output, w')
          → Undoes
              (latest_first before done)
              output
              w''
              x
              (execute_from attempt reported steps (suc i) (i ∷ completed) rest out v))
      → Undoes
          (latest_first before done)
          output
          w''
          x
          (execute_from attempt reported steps i completed (step ∷ rest) input w)
  unfolding execute_from on_forward then_forward
  after_forward step before rest steps completed done i input output w w' w'' x (ok out, v) e ran
        later =
      rw (does step.forward input w, e) (later out v ran)
  after_forward step before rest steps completed done i input output w w' w'' x (err y, v) e ran
        later =
      absurd cc

  -- The loop comes to a step that fails.
  fails_from :
      (prefix before : List (SagaStep W J)) (failing : SagaStep W J) (after : List (SagaStep W J))
      (steps : List (SagaStep W J)) (completed : List ℕ) (done : List (SagaStep W J)) (i : ℕ)
      (input output : J) (w w' w'' : W) (x : WorkflowError)
      → steps ≡ prefix ++ (before ++ (failing ∷ after))
      → i ≡ length prefix
      → Names steps completed done
      → all_forward acts before input w ≡ some (output, w')
      → acts failing.forward output w' ≡ (err x, w'')
      → Undoes
          (latest_first before done)
          output
          w''
          x
          (execute_from attempt reported steps i completed (before ++ (failing ∷ after)) input w)
  unfolding execute_from on_forward all_forward value_or
  fails_from prefix [] failing after steps completed done i input output w w' w'' x whole here names
        ran failed =
      let q : (input, w) ≡ (output, w') = ap (value_or (input, w)) ran in
      let c = compensates steps completed done output w'' names in
      record {
        text = c.text;
        after = c.after;
        how = c.how;
        told =
            ap
              (on_forward (execute_from attempt reported steps (suc i) (i ∷ completed) after)
                (λ y v. reported y (compensate steps completed input v)))
              (does failing.forward input w
                ∙ ap (λ p. some (acts failing.forward p.0 p.1)) q
                ∙ ap some failed)
            ∙ ap (reported x) (ap (λ p. compensate steps completed p.0 w'') q ∙ c.result);
      }
  fails_from prefix (step ∷ before) failing after steps completed done i input output w w' w'' x
        whole here names ran failed =
      let rest = before ++ (failing ∷ after) in
      let at_step : get_elem? steps i ≡ some step =
        ap (λ l. get_elem? l i) whole
        ∙ ap (get_elem? (prefix ++ (step ∷ rest))) here
        ∙ elem_at prefix rest step in
      after_forward step before rest steps completed (step ∷ done) i input output w w' w'' x
        (acts step.forward input w) refl ran
        (λ out v ran'.
          fails_from (prefix ++ (step ∷ [])) before failing after steps (i ∷ completed)
            (step ∷ done) (suc i) out output v w' w'' x
            (whole ∙ sym (append_assoc prefix (step ∷ []) rest))
            (omega (arith, here, length-append prefix (step ∷ []))) (at_step, names) ran' failed)

  succeeds_from :
      (rest steps : List (SagaStep W J)) (completed : List ℕ) (i : ℕ) (input : J) (w : W)
      (end : J × W)
      → all_forward acts rest input w ≡ some end
      → execute_from attempt reported steps i completed rest input w ≡ executed (ok end.0) end.1
  unfolding execute_from all_forward value_or
  succeeds_from [] steps completed i input w end ran =
      ap (λ (p : J × W). executed (ok p.0) p.1) (ap (value_or (input, w)) ran)
  succeeds_from (step ∷ rest) steps completed i input w end ran = rw (does step.forward input w) (
      forward_on (execute_from attempt reported steps (suc i) (i ∷ completed) rest)
        (λ y v. reported y (compensate steps completed input v)) rest end
        (executed (ok end.0) end.1) (acts step.forward input w) ran
        (λ out v ran'. succeeds_from rest steps (i ∷ completed) (suc i) out v end ran'))

  pub both_ends :
      (before : List (SagaStep W J)) (failing : SagaStep W J) (after : List (SagaStep W J))
      (input output : J) (w w' w'' : W) (x : WorkflowError)
      → all_forward acts before input w ≡ some (output, w')
      → acts failing.forward output w' ≡ (err x, w'')
      → let whole = before ++ (failing ∷ after) in
        (execute_from attempt reported before 0 [] before input w ≡ executed (ok output) w')
        × Undoes
            (latest_first before [])
            output
            w''
            x
            (execute_from attempt reported whole 0 [] whole input w)
  both_ends before failing after input output w w' w'' x ran failed = (
    succeeds_from before before [] 0 input w (output, w') ran,
    fails_from [] before failing after (before ++ (failing ∷ after)) [] [] 0 input output w w' w'' x
        refl refl tt ran failed,
  )

-- What a saga gives for the error of a step, with the text of a compensation that failed, if any.
abbrev pub told : WorkflowError → Option String → WorkflowError
told x none = x
told x (some text) =
    WorkflowError.storage_error ("Saga failed and compensation also failed: " ++ₛ text)

module _ {W J : Type 0} where
  reports :
      (x : WorkflowError) (text : Option String) (end : W)
      → report {J = J} x (compensated text end) ≡ executed (err (told x text)) end
  unfolding report
  reports x none end = refl
  reports x (some text) end = refl

  -- A saga whose forward actions all succeed gives their last output. A saga whose forward actions
  -- succeed up to one that fails runs none after it and compensates the steps before it from the
  -- latest to the first, each once and on the output of the compensation before, up to a compensation
  -- that fails. It gives the error of the step, or, where a compensation failed, an error with the
  -- text of that one.
  pub execute-undo :
      (before : List (SagaStep W J)) (failing : SagaStep W J) (after : List (SagaStep W J))
      (input output : J) (w w' w'' : W) (x : WorkflowError)
      → all_forward call before input w ≡ some (output, w')
      → call failing.forward output w' ≡ (err x, w'')
      → (execute before input w ≡ executed (ok output) w')
        × ((text : Option String) × (end : W) × Undone (latest_first before []) output w'' text end
            × (execute (before ++ (failing ∷ after)) input w ≡ executed (err (told x text)) end))
  unfolding execute report
  execute-undo before failing after input output w w' w'' x ran failed =
      let (all_done, u) =
        both_ends call (λ h i v. some (call h i v)) (λ h i v. refl) report before failing after
          input output w w' w'' x ran failed in
      (all_done, (u.text, u.after, u.how, u.told ∙ reports x u.text u.after))
