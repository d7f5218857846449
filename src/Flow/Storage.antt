-- ===== src/Flow/Storage.antt =====
-- The storage trait (moonflow/state_storage.mbt) as an interface: its operations, each run to its
-- end, with the storage that it leaves beside its result, and the laws that the engine relies on,
-- stated over an abstract view, the log and the snapshot of each identifier.
pub mod Memory
pub mod File
use moonbit.Prelude.{
  Bool, true, false, refl, arith, map, ◌≡◌, Option, some, List, [], ◌∷◌, ◌++◌, String, str_eq,
  if◌then◌else◌,
}
use moonbit.Prelude.Dict.{Dict, keys, get, contains}
use moonbit.Flow.Types.{WorkflowId, Result, ok}
use moonbit.Flow.Event.{WorkflowEvent}
use moonbit.Flow.Snapshot.{WorkflowSnapshot}

pub record Storage (J S : Type 0) : Type 0 where
  pub save_event : WorkflowId → WorkflowEvent J → S → Result (Unit {0}) × S
  pub load_events : WorkflowId → S → Result (List (WorkflowEvent J)) × S
  pub save_snapshot : WorkflowId → WorkflowSnapshot J → S → Result (Unit {0}) × S
  pub load_snapshot : WorkflowId → S → Result (Option (WorkflowSnapshot J)) × S
  pub list_workflows : S → Result (List WorkflowId) × S

abbrev pub lists : String → List WorkflowId → Bool
lists k [] = false
lists k (id ∷ ids) = if str_eq id.value k then true else lists k ids

-- The identifiers made of the keys of a map are those that it contains.
pub lists-keys :
    {V : Type 0} (k : String) (m : Dict V)
    → lists k (map (λ j. record { value = j }) (keys m)) ≡ contains k m
unfolding keys get
lists-keys k [] = refl
lists-keys k ((j, v) ∷ m) = ground (arith, lists-keys k m)

pub record StorageLaws {J S : Type 0} (st : Storage J S) (log : String → S → List (WorkflowEvent J))
    (snap : String → S → Option (WorkflowSnapshot J)) : Type 0 where
  pub log-save :
      (id : WorkflowId) (e : WorkflowEvent J) (s : S) (k : String)
      → log k (st.save_event id e s).1 ≡ (if str_eq id.value k then log k s ++ e ∷ [] else log k s)
  pub load_ok : (id : WorkflowId) (s : S) → (st.load_events id s).0 ≡ ok (log id.value s)
  pub log-load : (id : WorkflowId) (s : S) (k : String) → log k (st.load_events id s).1 ≡ log k s
  pub snap-save :
      (id : WorkflowId) (x : WorkflowSnapshot J) (s : S) (k : String)
      → snap k (st.save_snapshot id x s).1 ≡ (if str_eq id.value k then some x else snap k s)
  pub load_snapshot_ok :
      (id : WorkflowId) (s : S) → (st.load_snapshot id s).0 ≡ ok (snap id.value s)
  pub snap-save_event :
      (id : WorkflowId) (e : WorkflowEvent J) (s : S) (k : String)
      → snap k (st.save_event id e s).1 ≡ snap k s
  pub snap-load : (id : WorkflowId) (s : S) (k : String) → snap k (st.load_events id s).1 ≡ snap k s
  pub log-load_snapshot :
      (id : WorkflowId) (s : S) (k : String) → log k (st.load_snapshot id s).1 ≡ log k s
  pub snap-load_snapshot :
      (id : WorkflowId) (s : S) (k : String) → snap k (st.load_snapshot id s).1 ≡ snap k s
  pub list_ok :
      (s : S)
      → (ids : List WorkflowId) × ((st.list_workflows s).0 ≡ ok ids)
        × ((k : String) (e : WorkflowEvent J) (es : List (WorkflowEvent J))
            → log k s ≡ e ∷ es
            → lists k ids ≡ true)
  pub log-list : (s : S) (k : String) → log k (st.list_workflows s).1 ≡ log k s
  pub snap-list : (s : S) (k : String) → snap k (st.list_workflows s).1 ≡ snap k s
  pub log-save_snapshot :
      (id : WorkflowId) (x : WorkflowSnapshot J) (s : S) (k : String)
      → log k (st.save_snapshot id x s).1 ≡ log k s
