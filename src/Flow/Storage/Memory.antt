-- ===== src/Flow/Storage/Memory.antt =====
-- The in-memory back end (moonflow/runtime_memory_storage.mbt). The array of a log is pushed to in
-- place and written back under its key, so that a caller who keeps a loaded array sees what is saved
-- after: `LoadedArray` is such an array, and a loaded list is what it holds when it is loaded.
use moonbit.Prelude.{
  refl, true, Option, none, some, List, [], ◌∷◌, ◌++◌, arith, ◌≡◌, ◌∙◌, String, str_eq_iff, map,
}
use moonbit.Prelude.Dict.{Dict, get, put, keys, get-put, contains}
use moonbit.Flow.Types.{WorkflowId, Result, ok}
use moonbit.Flow.Event.{WorkflowEvent}
use moonbit.Flow.Snapshot.{WorkflowSnapshot}
use moonbit.Flow.Storage.{Storage, StorageLaws, lists-keys}

pub record MemoryStorage (J : Type 0) : Type 0 where
  pub event_logs : Dict (List (WorkflowEvent J))
  pub snapshots : Dict (WorkflowSnapshot J)

-- The array found under a key with one event pushed to it, or a fresh array.
abbrev pub pushed {ℓ} : {A : Type ℓ} → Option (List A) → A → List A
pushed (some arr) e = arr ++ e ∷ []
pushed none e = e ∷ []

abbrev pub or_empty {ℓ} : {A : Type ℓ} → Option (List A) → List A
or_empty (some arr) = arr
or_empty none = []

-- The array that `load_events` gives back: that which the map holds under a key, or a fresh one that
-- is in no map and stays empty.
pub data LoadedArray : Type 0 where
  held_under : String → LoadedArray
  fresh : LoadedArray

module _ {J : Type 0} where
  unfoldable pub new : MemoryStorage J
  new = record { event_logs = []; snapshots = [] }

  unfoldable pub save_event :
      WorkflowId → WorkflowEvent J → MemoryStorage J → Result (Unit {0}) × MemoryStorage J
  save_event id event self =
      let key = id.value in
      (
        ok tt,
        record self {
          event_logs = put key (pushed (get key self.event_logs) event) self.event_logs;
        },
      )

  -- What such an array holds in a state of the storage.
  unfoldable pub contents : LoadedArray → MemoryStorage J → List (WorkflowEvent J)
  contents (held_under key) self = or_empty (get key self.event_logs)
  contents fresh self = []

  unfoldable pub loaded_array : WorkflowId → MemoryStorage J → LoadedArray
  loaded_array id self = elim (get id.value self.event_logs) [
    | some arr ↦ held_under id.value
    | none ↦ fresh
  ]

  unfoldable pub load_events :
      WorkflowId → MemoryStorage J → Result (List (WorkflowEvent J)) × MemoryStorage J
  unfolding contents loaded_array
  load_events id self = (ok (contents (loaded_array id self) self), self)

  unfoldable pub save_snapshot :
      WorkflowId → WorkflowSnapshot J → MemoryStorage J → Result (Unit {0}) × MemoryStorage J
  save_snapshot id snapshot self =
      (ok tt, record self { snapshots = put id.value snapshot self.snapshots })

  unfoldable pub load_snapshot :
      WorkflowId → MemoryStorage J → Result (Option (WorkflowSnapshot J)) × MemoryStorage J
  load_snapshot id self = (ok (get id.value self.snapshots), self)

  unfoldable pub list_workflows : MemoryStorage J → Result (List WorkflowId) × MemoryStorage J
  list_workflows self = (ok (map (λ k. record { value = k }) (keys self.event_logs)), self)

  -- The view of the interface: what is held for an identifier.
  unfoldable pub stored_log : String → MemoryStorage J → List (WorkflowEvent J)
  stored_log k s = or_empty (get k s.event_logs)

  unfoldable pub stored_snapshot : String → MemoryStorage J → Option (WorkflowSnapshot J)
  stored_snapshot k s = get k s.snapshots

  unfoldable pub memory_storage : Storage J (MemoryStorage J)
  unfolding save_event load_events save_snapshot load_snapshot list_workflows
  memory_storage = record {
    save_event = save_event;
    load_events = load_events;
    save_snapshot = save_snapshot;
    load_snapshot = load_snapshot;
    list_workflows = list_workflows;
  }

  load_events_lem :
      (id : WorkflowId) (s : MemoryStorage J) → (load_events id s).0 ≡ ok (stored_log id.value s)
  unfolding load_events contents loaded_array stored_log
  load_events_lem id s = ground arith

  has_events :
      (k : String) (s : MemoryStorage J) (e : WorkflowEvent J) (es : List (WorkflowEvent J))
      → stored_log k s ≡ e ∷ es
      → contains k s.event_logs ≡ true
  unfolding stored_log
  has_events k s e es h = ground (arith, h)

  -- The in-memory back end keeps every event of every workflow in order and the latest snapshot of
  -- each: saving an event adds it at the end of the log of its workflow and changes no other log and
  -- no snapshot, saving a snapshot changes no log and no other snapshot, loading gives
  -- what is held, listing gives every workflow that has events, and both change nothing.
  pub memory_laws : StorageLaws memory_storage stored_log stored_snapshot
  unfolding memory_storage stored_log stored_snapshot
  memory_laws = record {
    log-save = λ id e s k. rw get-put (ground (arith, str_eq_iff id.value k));
    load_ok = λ id s. load_events_lem id s;
    log-load = λ id s k. refl;
    snap-save = λ id x s k. get-put id.value k x s.snapshots;
    load_snapshot_ok = λ id s. refl;
    snap-save_event = λ id e s k. refl;
    snap-load = λ id s k. refl;
    log-load_snapshot = λ id s k. refl;
    snap-load_snapshot = λ id s k. refl;
    list_ok = λ s. (_, refl, λ k e es h. lists-keys k s.event_logs ∙ has_events k s e es h);
    log-list = λ s k. refl;
    snap-list = λ s k. refl;
    log-save_snapshot = λ id x s k. refl;
  }
