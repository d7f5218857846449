-- ===== src/Flow/Log.antt =====
-- The immutable event log (moonflow/state_event_log.mbt).
use moonbit.Prelude.{
  ℕ, zero, suc, ◌+◌, ◌<◌, ◌≡◌, refl, ◌∙◌, sym, ap, ◌||◌, Option, none, some, List, [], ◌∷◌, ◌++◌,
  arith, length, get_elem?, length-append, if◌then◌else◌,
}
use mathlib.Core.List.{append_assoc, append-nil}
use moonbit.Prelude.Int.{ℤ, pos, pos_part, ltb_ℤ, leb_ℤ}
use moonbit.Flow.Types.{WorkflowId}
use moonbit.Flow.Event.{WorkflowEvent}

pub record EventLog (J : Type 0) : Type 0 where
  pub workflow_id : WorkflowId
  pub events : List (WorkflowEvent J)

module _ {J : Type 0} where
  unfoldable pub new : WorkflowId → EventLog J
  new id = record { workflow_id = id; events = [] }

  -- The loop that copies the events.
  copy : List (WorkflowEvent J) → List (WorkflowEvent J) → List (WorkflowEvent J)
  copy acc [] = acc
  copy acc (e ∷ es) = copy (acc ++ e ∷ []) es

  unfoldable pub append : EventLog J → WorkflowEvent J → EventLog J
  unfolding copy
  append self event = record {
    workflow_id = self.workflow_id;
    events = copy [] self.events ++ event ∷ [];
  }

  unfoldable pub log_length : EventLog J → ℤ
  log_length self = pos (length self.events)

  -- `events[index]` is in range where the guard has let it through.
  unfoldable pub get : EventLog J → ℤ → Option (WorkflowEvent J)
  get self index =
      if ltb_ℤ index (pos 0) || leb_ℤ (pos (length self.events)) index
      then none
      else get_elem? self.events (pos_part index)

  copy-append : (acc es : List (WorkflowEvent J)) → copy acc es ≡ acc ++ es
  unfolding copy
  copy-append acc [] = sym (append-nil acc)
  copy-append acc (e ∷ es) = copy-append (acc ++ e ∷ []) es ∙ append_assoc acc (e ∷ []) es

  get_elem?-snoc_last :
      (es : List (WorkflowEvent J)) (e : WorkflowEvent J)
      → get_elem? (es ++ e ∷ []) (length es) ≡ some e
  get_elem?-snoc_last [] e = refl
  get_elem?-snoc_last (x ∷ es) e = get_elem?-snoc_last es e

  get_elem?-snoc_before :
      (es : List (WorkflowEvent J)) (e : WorkflowEvent J) (i : ℕ)
      → i < length es
      → get_elem? (es ++ e ∷ []) i ≡ get_elem? es i
  get_elem?-snoc_before [] e i h = elim h [ ]
  get_elem?-snoc_before (x ∷ es) e zero h = refl
  get_elem?-snoc_before (x ∷ es) e (suc i) h = get_elem?-snoc_before es e i (omega arith)

  -- What `append` adds: the id stays, the length grows by one, the new event is at the old length,
  -- and at every index that the old log has an event the new one has the same.
  append_lem :
      (self : EventLog J) (event : WorkflowEvent J)
      → ((append self event).workflow_id ≡ self.workflow_id)
        × (log_length (append self event) ≡ pos (length self.events + 1))
        × (get (append self event) (log_length self) ≡ some event)
        × ((i : ℕ) → i < length self.events → get (append self event) (pos i) ≡ get self (pos i))
  unfolding append log_length get
  append_lem self event = rw copy-append (
    refl,
    ap pos (omega (arith, length-append self.events (event ∷ []))),
    ground (arith, get_elem?-snoc_last self.events event, length-append self.events (event ∷ [])),
    λ i h. ground (
      arith,
      get_elem?-snoc_before self.events event i h,
      length-append self.events (event ∷ []),
    ),
  )
