-- ===== src/Flow/Engine/Journal.antt =====
-- What every run leaves behind: the logs only grow at their ends, and the handlers and the signals
-- stay as they are.
use moonbit.Prelude.{
  ℕ, zero, suc, ◌≡◌, refl, ◌∙◌, Bool, true, false, Option, none, some, List, [], ◌∷◌, ◌++◌, String,
  str_eq, Extends, Extends-refl, Extends-trans, if◌then◌else◌,
}
use moonbit.Prelude.Int.{ℤ, pos, ◌+ℤ◌}
use moonbit.Flow.Types.{WorkflowId, StepNode, Result, ok, err, step_max_retries_exceeded}
use moonbit.Flow.Event.{WorkflowEvent}
use moonbit.Flow.Snapshot.{WorkflowSnapshot}
use moonbit.Flow.Storage.{Storage, StorageLaws}
use moonbit.Flow.Engine.{Platform, StepExecutor, Engine, now_ms, store_event, emit, call_handler}
use moonbit.Flow.Engine.Step.{
  execute_with_timeout, run_handler, settle, with_handler, attempt_step, execute_step_from,
  execute_step,
}

module _ {W J S : Type 0} (pf : Platform W J) (st : Storage J S)
    (log : String → S → List (WorkflowEvent J)) (snap : String → S → Option (WorkflowSnapshot J))
    (laws : StorageLaws st log snap) where
  -- `f` is a later engine than `e`.
  pub record Follows (e f : Engine W J S) : Type 0 where
    pub grown : (k : String) → Extends (log k e.storage) (log k f.storage)
    pub registry : f.registry ≡ e.registry
    pub signals : f.signals ≡ e.signals

  pub Follows-refl : (e : Engine W J S) → Follows e e
  Follows-refl e = record {
    grown = λ k. Extends-refl (log k e.storage);
    registry = refl;
    signals = refl;
  }

  pub Follows-trans : {e f g : Engine W J S} → Follows e f → Follows f g → Follows e g
  Follows-trans {e} {f} {g} h i = record {
    grown = λ k.
        Extends-trans (log k e.storage) (log k f.storage) (log k g.storage) (h.grown k) (i.grown k);
    registry = i.registry ∙ h.registry;
    signals = i.signals ∙ h.signals;
  }

  pub log-emit :
      (wf_id : WorkflowId) (event : ℤ → WorkflowEvent J) (e : Engine W J S) (k : String)
      → log k (emit pf st wf_id event e).storage ≡ (
          if str_eq wf_id.value k
          then log k e.storage ++ event (now_ms pf st e).0 ∷ []
          else log k e.storage)
  unfolding emit
  log-emit wf_id event e k = laws.log-save wf_id (event (now_ms pf st e).0) e.storage k

  pub store_event-Follows :
      (wf_id : WorkflowId) (event : WorkflowEvent J) (e : Engine W J S)
      → Follows e (store_event pf st wf_id event e)
  unfolding store_event
  store_event-Follows wf_id event e = record {
    grown = λ k. rw (laws.log-save wf_id event e.storage k) (one k (str_eq wf_id.value k));
    registry = refl;
    signals = refl;
  }
    where
      one :
          (k : String) (b : Bool)
          → Extends (log k e.storage) (if b then log k e.storage ++ event ∷ [] else log k e.storage)
      one k true = (event ∷ [], refl)
      one k false = Extends-refl (log k e.storage)

  pub now_ms-Follows : (e : Engine W J S) → Follows e (now_ms pf st e).1
  unfolding now_ms
  now_ms-Follows e = record {
    grown = λ k. Extends-refl (log k e.storage);
    registry = refl;
    signals = refl;
  }

  pub emit-Follows :
      (wf_id : WorkflowId) (event : ℤ → WorkflowEvent J) (e : Engine W J S)
      → Follows e (emit pf st wf_id event e)
  unfolding emit
  emit-Follows wf_id event e =
      let (ts, e') = now_ms pf st e in
      Follows-trans (now_ms-Follows e) (store_event-Follows wf_id (event ts) e')

  call_handler-Follows :
      (h : StepExecutor W J) (input : J) (e : Engine W J S) → Follows e (call_handler h input e).1
  unfolding call_handler
  call_handler-Follows h input e = record {
    grown = λ k. Extends-refl (log k e.storage);
    registry = refl;
    signals = refl;
  }

  if-Follows :
      (b : Bool) (e : Engine W J S) (x y : Result J × Engine W J S)
      → Follows e x.1
      → Follows e y.1
      → Follows e (if b then x else y).1
  if-Follows true e x y h i = h
  if-Follows false e x y h i = i

  execute_with_timeout-Follows :
      (wf_id : WorkflowId) (node : StepNode) (h : StepExecutor W J) (input : J) (e : Engine W J S)
      → Follows e (execute_with_timeout pf st wf_id node h input e).1
  unfolding execute_with_timeout
  execute_with_timeout-Follows wf_id node h input e =
      let e₁ = (now_ms pf st e).1 in
      let e₂ = (call_handler h input e₁).1 in
      let timed : Follows e (now_ms pf st e₂).1 =
        Follows-trans (now_ms-Follows e)
          (Follows-trans (call_handler-Follows h input e₁) (now_ms-Follows e₂)) in
      if-Follows _ e _ _ (Follows-trans timed (emit-Follows wf_id _ _)) timed

  pub run_handler-Follows :
      (wf_id : WorkflowId) (node : StepNode) (h : StepExecutor W J) (input : J) (e : Engine W J S)
      → Follows e (run_handler pf st wf_id node h input e).1
  run_handler-Follows wf_id node h input e =
      unfold run_handler in
      if-Follows _ e _ _ (execute_with_timeout-Follows wf_id node h input e)
        (call_handler-Follows h input e)

  -- What every run of an attempt keeps, if the attempts after it do.
  module _ (again : Engine W J S → Result J × Engine W J S)
      (keep : (e : Engine W J S) → Follows e (again e).1) where
    settle-Follows :
        (wf_id : WorkflowId) (node : StepNode) (attempt : ℤ) (r : Result J × Engine W J S)
        → Follows r.1 (settle pf st wf_id node attempt again r).1
    unfolding settle
    settle-Follows wf_id node attempt (ok output, e) = Follows-refl e
    settle-Follows wf_id node attempt (err x, e) =
        if-Follows _ e _ _ (Follows-trans (emit-Follows wf_id _ e) (keep _))
          (emit-Follows wf_id _ e)

    with_handler-Follows :
        (wf_id : WorkflowId) (node : StepNode) (input : J) (attempt : ℤ)
        (o : Option (StepExecutor W J)) (e : Engine W J S)
        → Follows e (with_handler pf st wf_id node input attempt again o e).1
    unfolding with_handler
    with_handler-Follows wf_id node input attempt none e = Follows-refl e
    with_handler-Follows wf_id node input attempt (some h) e =
        Follows-trans (run_handler-Follows wf_id node h input e)
          (settle-Follows wf_id node attempt _)

    attempt_step-Follows :
        (wf_id : WorkflowId) (node : StepNode) (input : J) (attempt : ℤ) (e : Engine W J S)
        → Follows e (attempt_step pf st wf_id node input attempt again e).1
    unfolding attempt_step
    attempt_step-Follows wf_id node input attempt e =
        Follows-trans (emit-Follows wf_id _ e) (with_handler-Follows wf_id node input attempt _ _)

  execute_step_from-Follows :
      (left : ℕ) (wf_id : WorkflowId) (node : StepNode) (input : J) (attempt : ℤ) (e : Engine W J S)
      → Follows e (execute_step_from pf st left wf_id node input attempt e).1
  unfolding execute_step_from
  execute_step_from-Follows zero wf_id node input attempt e =
      attempt_step-Follows (λ e'. (err (step_max_retries_exceeded node.name attempt), e'))
        Follows-refl wf_id node input attempt e
  execute_step_from-Follows (suc left) wf_id node input attempt e =
      attempt_step-Follows (execute_step_from pf st left wf_id node input (attempt +ℤ pos 1))
        (λ e'. execute_step_from-Follows left wf_id node input (attempt +ℤ pos 1) e') wf_id node
        input attempt e

  -- A step with all its attempts.
  pub execute_step-Follows :
      (wf_id : WorkflowId) (node : StepNode) (input : J) (attempt : ℤ) (e : Engine W J S)
      → Follows e (execute_step pf st wf_id node input attempt e).1
  unfolding execute_step
  execute_step-Follows wf_id node input attempt e =
      execute_step_from-Follows _ wf_id node input attempt e
