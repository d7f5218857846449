-- ===== src/Flow/Storage/File.antt =====
-- The file back end (moonflow/runtime_file_storage.mbt), as the source has it: the functions that
-- read files find nothing and those that write them write nothing. As in the in-memory back end, a
-- loaded list is what the array holds when it is loaded.
use moonbit.Prelude.{
  ◌≡◌, ◌∙◌, ◌∷◌, refl, Bool, true, Option, none, some, List, [], arith, String, str_eq_iff, map,
}
use moonbit.Prelude.Dict.{Dict, get, put, keys, get-put, contains}
use moonbit.Flow.Types.{WorkflowId, Result, ok}
use moonbit.Flow.Event.{WorkflowEvent}
use moonbit.Flow.Snapshot.{WorkflowSnapshot}
use moonbit.Flow.Storage.{Storage, StorageLaws, lists-keys}
use moonbit.Flow.Storage.Memory.{pushed, or_empty}

pub record FileStorage (J : Type 0) : Type 0 where
  pub data_dir : String
  pub event_cache : Dict (List (WorkflowEvent J))
  pub snapshot_cache : Dict (WorkflowSnapshot J)
  pub dirty_ids : Dict Bool

module _ {J : Type 0} where
  unfoldable pub new : String → FileStorage J
  new dir = record { data_dir = dir; event_cache = []; snapshot_cache = []; dirty_ids = [] }

  read_events_file : String → String → Option (List (WorkflowEvent J))
  read_events_file data_dir wf_id = none

  read_snapshot_file : String → String → Option (WorkflowSnapshot J)
  read_snapshot_file data_dir wf_id = none

  unfoldable pub save_event :
      WorkflowId → WorkflowEvent J → FileStorage J → Result (Unit {0}) × FileStorage J
  save_event id event self =
      let key = id.value in
      (
        ok tt,
        record self {
          event_cache = put key (pushed (get key self.event_cache) event) self.event_cache;
          dirty_ids = put key true self.dirty_ids;
        },
      )

  load_from_disk :
      Option (List (WorkflowEvent J))
      → String
      → FileStorage J
      → Result (List (WorkflowEvent J)) × FileStorage J
  load_from_disk (some arr) key self =
      (ok arr, record self { event_cache = put key arr self.event_cache })
  load_from_disk none key self = (ok [], self)

  unfoldable pub load_events :
      WorkflowId → FileStorage J → Result (List (WorkflowEvent J)) × FileStorage J
  unfolding load_from_disk read_events_file
  load_events id self = elim (get id.value self.event_cache) [
    | some arr ↦ (ok arr, self)
    | none ↦ load_from_disk (read_events_file self.data_dir id.value) id.value self
  ]

  unfoldable pub save_snapshot :
      WorkflowId → WorkflowSnapshot J → FileStorage J → Result (Unit {0}) × FileStorage J
  save_snapshot id snapshot self =
      (ok tt, record self { snapshot_cache = put id.value snapshot self.snapshot_cache })

  load_snapshot_from_disk :
      Option (WorkflowSnapshot J)
      → String
      → FileStorage J
      → Result (Option (WorkflowSnapshot J)) × FileStorage J
  load_snapshot_from_disk (some s) key self =
      (ok (some s), record self { snapshot_cache = put key s self.snapshot_cache })
  load_snapshot_from_disk none key self = (ok none, self)

  unfoldable pub load_snapshot :
      WorkflowId → FileStorage J → Result (Option (WorkflowSnapshot J)) × FileStorage J
  unfolding load_snapshot_from_disk read_snapshot_file
  load_snapshot id self = elim (get id.value self.snapshot_cache) [
    | some s ↦ (ok (some s), self)
    | none ↦ load_snapshot_from_disk (read_snapshot_file self.data_dir id.value) id.value self
  ]

  unfoldable pub list_workflows : FileStorage J → Result (List WorkflowId) × FileStorage J
  list_workflows self = (ok (map (λ k. record { value = k }) (keys self.event_cache)), self)

  -- The view of the interface: what is held for an identifier.
  unfoldable pub stored_log : String → FileStorage J → List (WorkflowEvent J)
  stored_log k s = or_empty (get k s.event_cache)

  unfoldable pub stored_snapshot : String → FileStorage J → Option (WorkflowSnapshot J)
  stored_snapshot k s = get k s.snapshot_cache

  unfoldable pub file_storage : Storage J (FileStorage J)
  unfolding save_event load_events save_snapshot load_snapshot list_workflows
  file_storage = record {
    save_event = save_event;
    load_events = load_events;
    save_snapshot = save_snapshot;
    load_snapshot = load_snapshot;
    list_workflows = list_workflows;
  }

  has_events :
      (k : String) (s : FileStorage J) (e : WorkflowEvent J) (es : List (WorkflowEvent J))
      → stored_log k s ≡ e ∷ es
      → contains k s.event_cache ≡ true
  unfolding stored_log
  has_events k s e es h = ground (arith, h)

  -- While the process lives, the caches of the file back end keep every event of every workflow in
  -- order and the latest snapshot of each: saving an event adds it at the end of the log of its
  -- workflow and changes no other log and no snapshot, saving a snapshot changes no log and no other
  -- snapshot, loading gives what is held, listing gives every workflow that has events,
  -- and both change neither.
  pub file_laws : StorageLaws file_storage stored_log stored_snapshot
  unfolding file_storage stored_log stored_snapshot
  file_laws = record {
    log-save = λ id e s k. rw get-put (ground (arith, str_eq_iff id.value k));
    load_ok = λ id s. ground arith;
    log-load = λ id s k. ground arith;
    snap-save = λ id x s k. get-put id.value k x s.snapshot_cache;
    load_snapshot_ok = λ id s. ground arith;
    snap-save_event = λ id e s k. refl;
    snap-load = λ id s k. ground arith;
    log-load_snapshot = λ id s k. ground arith;
    snap-load_snapshot = λ id s k. ground arith;
    list_ok = λ s. (_, refl, λ k e es h. lists-keys k s.event_cache ∙ has_events k s e es h);
    log-list = λ s k. refl;
    snap-list = λ s k. refl;
    log-save_snapshot = λ id x s k. refl;
  }
