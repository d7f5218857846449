-- ===== src/Flow/Snapshot/RoundTrip.antt =====
-- What a snapshot keeps on its way through JSON.
use moonbit.Prelude.{◌≡◌, refl, arith}
use moonbit.Prelude.Int.{ℤ, pos, negsuc, Fits32, wrap32}
use moonbit.Prelude.Dict.{get}
use moonbit.Flow.Types.{WorkflowStatus, pending, running, completed, failed, cancelled, ok}
use moonbit.Flow.Replay as Replay
use moonbit.Flow.Snapshot.{
  WorkflowSnapshot, JsonValues, JsonLaws, status_to_string, string_to_status, state_to_json,
  to_json, state_from_json, snapshot_of, from_json,
}

status_back : (s : WorkflowStatus) → string_to_status (status_to_string s) ≡ s
unfolding string_to_status status_to_string
status_back pending = refl
status_back running = refl
status_back completed = refl
status_back failed = refl
status_back cancelled = refl

wrap32-Fits32 : (n : ℤ) → Fits32 (wrap32 n)
unfolding wrap32
wrap32-Fits32 (pos n) = ground arith
wrap32-Fits32 (negsuc n) = ground arith

-- A snapshot is read back from its JSON with its identifier, the number of its events, the
-- identifier, status and current step of its state, and its time as a number of 32 bits; what its
-- state says of the single steps is gone.
pub from_json-to_json :
    {J D : Type 0} (js : JsonValues J D) (x : WorkflowSnapshot J)
    → JsonLaws js
    → Fits32 x.event_count
    → from_json js (to_json js x)
      ≡ ok (record {
        workflow_id = x.workflow_id;
        state = record (Replay.new x.state.workflow_id) {
          status = x.state.status;
          current_step = x.state.current_step;
        };
        event_count = x.event_count;
        created_at = wrap32 x.created_at;
      })
unfolding from_json to_json snapshot_of state_from_json state_to_json get
from_json-to_json js x laws fits =
    rw
      (
        laws.object_back,
        laws.string_back,
        laws.object_back,
        laws.string_back,
        laws.string_back,
        laws.string_back,
        laws.number_back,
        laws.number_back,
        status_back x.state.status,
        laws.int_back x.event_count fits,
        laws.int_back (wrap32 x.created_at) (wrap32-Fits32 x.created_at),
      )
      refl
