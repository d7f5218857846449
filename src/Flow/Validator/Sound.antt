-- ===== src/Flow/Validator/Sound.antt =====
-- What a definition that validation accepts has.
use moonbit.Prelude.{
  ◌≡◌, refl, ◌↔◌, String, Bool, true, false, List, [], ◌∷◌, arith, All, str_eq, if◌then◌else◌,
}
use moonbit.Prelude.Int.{pos, ltb_ℤ}
use moonbit.Prelude.Dict.{Dict, put, contains, get, get-put}
use moonbit.Flow.Types.{StepNode, StepType, sequential, parallel, conditional, WorkflowDef}
use moonbit.Flow.Engine.{Engine}
use moonbit.Flow.Validator.{
  Findings, is_empty, push_if, quoted, missing, warn_of_step, warn_of_children, warn_of_targets,
  errors_of_step, check_steps, result_of, validate_steps, validate_workflow,
}

abbrev pub DistinctNames : List StepNode → Type 0
DistinctNames [] = Unit
DistinctNames (node ∷ nodes) =
    All (λ other. str_eq node.name other.name ≡ false) nodes × DistinctNames nodes

abbrev pub NotNegative : StepNode → Type 0
NotNegative node =
    (ltb_ℤ node.config.max_retry (pos 0) ≡ false) × (ltb_ℤ node.config.timeout_ms (pos 0) ≡ false)

-- The handlers that a step of this type names are there.
abbrev pub Handled : {A : Type 0} → Dict A → String → StepType → Type 0
Handled registry name sequential = contains name registry ≡ true
Handled registry name (parallel children) = All (λ c. contains c registry ≡ true) children
Handled registry name (conditional c t f) =
    (contains c registry ≡ true) × (contains t registry ≡ true) × (contains f registry ≡ true)
Handled registry name (StepType.sub_workflow _) = Unit
Handled registry name (StepType.signal _) = Unit

push_if-nil :
    (b : Bool) (message : String) (texts : List String)
    → (push_if b message texts ≡ []) ↔ ((b ≡ false) × (texts ≡ []))
push_if-nil true message [] = ground arith
push_if-nil true message (t ∷ ts) = ground arith
push_if-nil false message texts = ground arith

contains-put :
    (k j : String) (m : Dict (Unit {0}))
    → contains j (put k tt m) ≡ (if str_eq k j then true else contains j m)
contains-put k j m = rw get-put (ground arith)

Unseen : Dict (Unit {0}) → List StepNode → Type 0
Unseen names nodes = All (λ n. contains n.name names ≡ false) nodes

Unseen-put :
    (k : String) (names : Dict (Unit {0})) (nodes : List StepNode)
    → Unseen (put k tt names) nodes
      ↔ (Unseen names nodes × All (λ other. str_eq k other.name ≡ false) nodes)
unfolding Unseen
Unseen-put k names [] = ground arith
Unseen-put k names (n ∷ ns) = ground (arith, contains-put k n.name names, Unseen-put k names ns)

errors_of_step-nil :
    (seen : Bool) (node : StepNode) (es : List String)
    → (errors_of_step seen node es ≡ []) ↔ ((seen ≡ false) × (NotNegative node × (es ≡ [])))
unfolding errors_of_step
errors_of_step-nil seen node es = grind (arith, push_if-nil)

module _ {A : Type 0} (registry : Dict A) where
  check_steps-errors :
      (nodes : List StepNode) (found : Findings)
      → ((check_steps registry nodes found).errors ≡ []) ↔ (
          (found.errors ≡ [])
          × (Unseen found.names nodes × (DistinctNames nodes × All NotNegative nodes)))
  unfolding check_steps Unseen
  check_steps-errors [] found = ground arith
  check_steps-errors (n ∷ ns) found =
      let rest : Findings = record {
        names = put n.name tt found.names;
        errors = errors_of_step (contains n.name found.names) n found.errors;
        warnings =
            warn_of_targets registry n.step_type
              (warn_of_step registry n n.step_type found.warnings);
      } in
      ground (
        arith,
        check_steps-errors ns rest,
        Unseen-put n.name found.names ns,
        errors_of_step-nil (contains n.name found.names) n found.errors,
      )

  -- The handlers of a step that names some are there.
  missing-false :
      (name : String) → (missing registry name ≡ false) ↔ (contains name registry ≡ true)
  unfolding missing
  missing-false name = ground arith

  warn_of_children-nil :
      (children ws : List String)
      → (warn_of_children registry children ws ≡ [])
        ↔ (All (λ c. contains c registry ≡ true) children × (ws ≡ []))
  unfolding warn_of_children
  warn_of_children-nil [] ws = ground arith
  warn_of_children-nil (c ∷ cs) ws =
      let message = quoted "Parallel child '" c "' has no registered handler" in
      ground (
        arith,
        missing-false c,
        push_if-nil (missing registry c) message ws,
        warn_of_children-nil cs (push_if (missing registry c) message ws),
      )

  warn_of_step-targets :
      (node : StepNode) (type : StepType) (ws : List String)
      → (warn_of_targets registry type (warn_of_step registry node type ws) ≡ [])
        ↔ (Handled registry node.name type × (ws ≡ []))
  unfolding warn_of_targets warn_of_step
  warn_of_step-targets node sequential ws = grind (arith, push_if-nil, missing-false)
  warn_of_step-targets node (parallel children) ws = warn_of_children-nil children ws
  warn_of_step-targets node (conditional c t f) ws = grind (arith, push_if-nil, missing-false)
  warn_of_step-targets node (StepType.sub_workflow _) ws = ground arith
  warn_of_step-targets node (StepType.signal _) ws = ground arith

  check_steps-warnings :
      (nodes : List StepNode) (found : Findings)
      → ((check_steps registry nodes found).warnings ≡ [])
        ↔ (All (λ n. Handled registry n.name n.step_type) nodes × (found.warnings ≡ []))
  unfolding check_steps
  check_steps-warnings [] found = ground arith
  check_steps-warnings (n ∷ ns) found =
      let rest : Findings = record {
        names = put n.name tt found.names;
        errors = errors_of_step (contains n.name found.names) n found.errors;
        warnings =
            warn_of_targets registry n.step_type
              (warn_of_step registry n n.step_type found.warnings);
      } in
      ground
        (arith, check_steps-warnings ns rest, warn_of_step-targets n n.step_type found.warnings)

  is_empty-nil : (texts : List String) → (is_empty texts ≡ true) ↔ (texts ≡ [])
  is_empty-nil [] = ground arith
  is_empty-nil (t ∷ ts) = ground arith

  none_seen : (nodes : List StepNode) → Unseen [] nodes
  unfolding Unseen get
  none_seen [] = tt
  none_seen (n ∷ ns) = (refl, none_seen ns)

  validate_steps_lem :
      (nodes : List StepNode)
      → (((validate_steps registry nodes).valid ≡ true)
          ↔ ((is_empty nodes ≡ false) × (DistinctNames nodes × All NotNegative nodes)))
        × (((validate_steps registry nodes).warnings ≡ [])
            ↔ All (λ n. Handled registry n.name n.step_type) nodes)
  unfolding validate_steps result_of
  validate_steps_lem [] = ground arith
  validate_steps_lem (n ∷ ns) =
      let start : Findings = record { names = []; errors = []; warnings = [] } in
      ground (
        arith,
        is_empty-nil (check_steps registry (n ∷ ns) start).errors,
        check_steps-errors (n ∷ ns) start,
        check_steps-warnings (n ∷ ns) start,
        none_seen (n ∷ ns),
      )

-- Validation accepts a definition exactly if it has a step, the names of its steps are distinct, and
-- no step has a negative number of retries or a negative time limit; it warns of nothing exactly if
-- every handler that a sequential, parallel or conditional step names is registered.
pub validate_workflow_lem :
    {W J S : Type 0} (e : Engine W J S) (wf_def : WorkflowDef)
    → (((validate_workflow e wf_def).valid ≡ true) ↔ (
        (is_empty wf_def.steps ≡ false)
        × (DistinctNames wf_def.steps × All NotNegative wf_def.steps)))
      × (((validate_workflow e wf_def).warnings ≡ [])
          ↔ All (λ n. Handled e.registry n.name n.step_type) wf_def.steps)
unfolding validate_workflow
validate_workflow_lem e wf_def = validate_steps_lem e.registry wf_def.steps
