-- ===== src/Flow/Query/Census.antt =====
-- The census of the workflows by their status (moonflow/api_query.mbt), over any storage that keeps
-- the contract.
use moonbit.Prelude.{
  ℕ, suc, String, Bool, true, false, Option, none, some, List, [], ◌∷◌, if◌then◌else◌,
}
use moonbit.Prelude.Int.{ℤ, pos}
use moonbit.Prelude.Dict.{Dict}
use moonbit.Flow.Types.{WorkflowId, WorkflowStatus, pending, running, completed, failed, cancelled}
use moonbit.Flow.Event.{WorkflowEvent}
use moonbit.Flow.Snapshot.{WorkflowSnapshot}
use moonbit.Flow.Storage.{Storage, StorageLaws}
use moonbit.Flow.Query.{status_in}

abbrev pub same_status : WorkflowStatus → WorkflowStatus → Bool
same_status pending pending = true
same_status running running = true
same_status completed completed = true
same_status failed failed = true
same_status cancelled cancelled = true
same_status _ _ = false

abbrev pub is_status : WorkflowStatus → Option WorkflowStatus → Bool
is_status x (some y) = same_status y x
is_status x none = false

-- The number under a label, 0 where there is none.
abbrev pub tally : Option ℤ → ℤ
tally (some c) = c
tally none = pos 0

module _ {J S : Type 0} {st : Storage J S} {log : String → S → List (WorkflowEvent J)}
    {snap : String → S → Option (WorkflowSnapshot J)} (laws : StorageLaws st log snap) where
  -- How many of the workflows have a status in the logs of a storage.
  pub number_with : WorkflowStatus → List WorkflowId → S → ℕ
  unfolding status_in
  number_with x [] s = 0
  number_with x (id ∷ ids) s =
      let rest = number_with x ids s in
      if is_status x (status_in (log id.value s)) then suc rest else rest
