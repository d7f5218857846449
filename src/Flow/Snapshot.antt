-- ===== src/Flow/Snapshot.antt =====
-- Snapshots and their JSON (moonflow/state_snapshot.mbt). JSON values and floating-point numbers are
-- those of the core library: their constructors and what a pattern finds in them are parameters.
pub mod RoundTrip
use moonbit.Prelude.{◌≡◌, String, Option, none, some, List, [], ◌∷◌, str_eq, if◌then◌else◌}
use moonbit.Prelude.Int.{ℤ, pos, Fits32, wrap32}
use moonbit.Prelude.Dict.{Dict, get}
use moonbit.Flow.Types.{
  WorkflowId, WorkflowError, WorkflowStatus, pending, running, completed, failed, cancelled, Result,
  ok, err, serialization_error,
}
use moonbit.Flow.Replay.{WorkflowExecutionState}
use moonbit.Flow.Replay as Replay

pub record WorkflowSnapshot (J : Type 0) : Type 0 where
  pub workflow_id : WorkflowId
  pub state : WorkflowExecutionState J
  pub event_count : ℤ
  pub created_at : ℤ

-- `Json` and `Double`.
pub record JsonValues (J D : Type 0) : Type 0 where
  pub object : Dict J → J
  pub string : String → J
  pub number : D → J
  pub as_object : J → Option (Dict J)
  pub as_string : J → Option String
  pub as_number : J → Option D
  pub to_double : ℤ → D
  pub double_to_int : D → ℤ

-- A pattern finds what the constructor was given, and a `Double` holds every `Int`.
pub record JsonLaws {J D : Type 0} (js : JsonValues J D) : Type 0 where
  pub object_back : (m : Dict J) → js.as_object (js.object m) ≡ some m
  pub string_back : (s : String) → js.as_string (js.string s) ≡ some s
  pub number_back : (d : D) → js.as_number (js.number d) ≡ some d
  pub int_back : (n : ℤ) → Fits32 n → js.double_to_int (js.to_double n) ≡ n

unfoldable pub status_to_string : WorkflowStatus → String
status_to_string pending = "Pending"
status_to_string running = "Running"
status_to_string completed = "Completed"
status_to_string failed = "Failed"
status_to_string cancelled = "Cancelled"

unfoldable pub string_to_status : String → WorkflowStatus
string_to_status s =
    if str_eq s "Pending"
    then pending
    else if str_eq s "Running"
    then running
    else if str_eq s "Completed"
    then completed
    else if str_eq s "Failed"
    then failed
    else if str_eq s "Cancelled"
    then cancelled
    else pending

abbrev pub bind_option : {A B : Type 0} → Option A → (A → Option B) → Option B
bind_option none f = none
bind_option (some a) f = f a

-- What `return Err(..)` of a `match` leaves out.
abbrev pub required : {A B : Type 0} → String → Option A → (A → Result B) → Result B
required message (some a) rest = rest a
required message none rest = err (serialization_error message)

abbrev pub and_then : {A B : Type 0} → Result A → (A → Result B) → Result B
and_then (ok a) rest = rest a
and_then (err x) rest = err x

abbrev pub or_else : {A : Type 0} → A → Option A → A
or_else d (some a) = a
or_else d none = d

module _ {J D : Type 0} (js : JsonValues J D) where
  unfoldable pub state_to_json : WorkflowExecutionState J → J
  unfolding status_to_string
  state_to_json state = js.object (
      ("workflow_id", js.string state.workflow_id.value)
      ∷ ("status", js.string (status_to_string state.status))
      ∷ ("current_step", js.string state.current_step)
      ∷ [])

  unfoldable pub to_json : WorkflowSnapshot J → J
  unfolding state_to_json
  to_json self = js.object (
      ("workflow_id", js.string self.workflow_id.value)
      ∷ ("state", state_to_json self.state)
      ∷ ("event_count", js.number (js.to_double self.event_count))
      ∷ ("created_at", js.number (js.to_double (wrap32 self.created_at)))
      ∷ [])

  -- The fields of a JSON object.
  abbrev pub string_in : String → Dict J → Option String
  string_in name fields = bind_option (get name fields) js.as_string

  abbrev pub int_in : String → Dict J → ℤ
  int_in name fields =
      or_else (pos 0)
        (bind_option (bind_option (get name fields) js.as_number) (λ d. some (js.double_to_int d)))

  unfoldable pub state_from_json : Dict J → Result (WorkflowExecutionState J)
  unfolding string_to_status
  state_from_json fields = required "missing workflow_id" (string_in "workflow_id" fields) (λ v.
      ok (record (Replay.new (record { value = v })) {
        status =
            or_else pending
              (bind_option (string_in "status" fields) (λ s. some (string_to_status s)));
        current_step = or_else "" (string_in "current_step" fields);
      }))

  unfoldable pub snapshot_of : Dict J → Result (WorkflowSnapshot J)
  unfolding state_from_json
  snapshot_of fields = required "missing workflow_id" (string_in "workflow_id" fields) (λ v.
      required "missing state" (bind_option (get "state" fields) js.as_object) (λ inner.
        and_then (state_from_json inner) (λ state. ok (record {
          workflow_id = record { value = v };
          state = state;
          event_count = int_in "event_count" fields;
          created_at = int_in "created_at" fields;
        }))))

  unfoldable pub from_json : J → Result (WorkflowSnapshot J)
  unfolding snapshot_of
  from_json json = required "expected object" (js.as_object json) snapshot_of
