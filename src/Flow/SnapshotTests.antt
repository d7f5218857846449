-- ===== src/Flow/SnapshotTests.antt =====
-- The JSON of a snapshot and the metrics at concrete inputs.
use moonbit.Prelude.{ap, ◌≡◌, refl, String, none, some, [], ◌∷◌, arith}
use moonbit.Prelude.Int.{ℤ, pos, wrap32}
use moonbit.Prelude.Dict.{Dict}
use moonbit.Flow.Types.{WorkflowId, running, ok}
use moonbit.Flow.Metrics as Metrics
use moonbit.Flow.Metrics.Sums.{record_steps, record_steps_lem}
use moonbit.Flow.Replay.{WorkflowExecutionState}
use moonbit.Flow.Replay as Replay
use moonbit.Flow.Snapshot.{WorkflowSnapshot, JsonValues, JsonLaws, to_json, from_json}
use moonbit.Flow.Snapshot.RoundTrip.{from_json-to_json}

abbrev id_1 : WorkflowId
id_1 = record { value = "1" }

-- JSON values as data, with integers for floating-point numbers.
mutual
  data Json : Type 0 where
    object : Fields → Json
    string : String → Json
    number : ℤ → Json

  data Fields : Type 0 where
    no_field : Fields
    field : String → Json → Fields → Fields

abbrev of_dict : Dict Json → Fields
of_dict [] = no_field
of_dict ((k, j) ∷ m) = field k j (of_dict m)

abbrev to_dict : Fields → Dict Json
to_dict no_field = []
to_dict (field k j fs) = (k, j) ∷ to_dict fs

to_dict-of_dict : (m : Dict Json) → to_dict (of_dict m) ≡ m
to_dict-of_dict [] = refl
to_dict-of_dict ((k, j) ∷ m) = ap (λ fs. (k, j) ∷ fs) (to_dict-of_dict m)

abbrev json_values : JsonValues Json ℤ
json_values = record {
  object = λ m. object (of_dict m);
  string = string;
  number = number;
  as_object = λ j. elim j [ object fs ↦ some (to_dict fs) | string s ↦ none | number n ↦ none ];
  as_string = λ j. elim j [ object fs ↦ none | string s ↦ some s | number n ↦ none ];
  as_number = λ j. elim j [ object fs ↦ none | string s ↦ none | number n ↦ some n ];
  to_double = λ n. n;
  double_to_int = λ n. n;
}

json_laws : JsonLaws json_values
json_laws = record {
  object_back = λ m. ap some (to_dict-of_dict m);
  string_back = λ s. refl;
  number_back = λ n. refl;
  int_back = λ n h. refl;
}

-- The time is a number of milliseconds of this century, which 32 bits do not hold.
abbrev saved : WorkflowSnapshot Json
saved = record {
  workflow_id = id_1;
  state = record (Replay.new id_1) { status = running; current_step = "a" };
  event_count = pos 3;
  created_at = pos 1700000000000;
}

from_json-to_json_example :
    from_json json_values (to_json json_values saved)
    ≡ ok (record {
      workflow_id = id_1;
      state = record (Replay.new id_1) { status = running; current_step = "a" };
      event_count = pos 3;
      created_at = wrap32 (pos 1700000000000);
    })
unfolding Replay.new
from_json-to_json_example = from_json-to_json json_values saved json_laws (omega arith, omega arith)

record_steps_lem_example :
    ((record_steps Metrics.new (5 ∷ 9 ∷ 2 ∷ [])).total_steps_executed ≡ pos 3)
    × ((record_steps Metrics.new (5 ∷ 9 ∷ 2 ∷ [])).total_step_time_ms ≡ pos 16)
    × ((record_steps Metrics.new (5 ∷ 9 ∷ 2 ∷ [])).min_step_time_ms ≡ pos 2)
    × ((record_steps Metrics.new (5 ∷ 9 ∷ 2 ∷ [])).max_step_time_ms ≡ pos 9)
record_steps_lem_example = record_steps_lem (5 ∷ 9 ∷ 2 ∷ []) (omega arith) (omega arith)
