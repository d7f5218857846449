-- ===== src/Flow/Query/Ended.antt =====
-- What the queries tell of a workflow that has ended, over any storage that keeps the contract.
use moonbit.Prelude.{
  inl, inr, Option-cases, suc, ◌+◌, ◌≡◌, refl, String, Option, none, some, List, [], ◌∷◌, ◌++◌,
  arith, length, get_last?-snoc, length-append,
}
use moonbit.Prelude.Int.{ℤ, pos, ◌-ℤ◌, wrap64}
use moonbit.Flow.Types.{WorkflowId, WorkflowStatus, running, completed, failed}
use moonbit.Flow.Event.{WorkflowEvent, workflow_started, workflow_completed, workflow_failed}
use moonbit.Flow.Snapshot.{WorkflowSnapshot}
use moonbit.Flow.Replay.Latest.{latest, status_of, replay-Reads}
use moonbit.Flow.Storage.{Storage, StorageLaws}
use moonbit.Flow.Query as Query
use moonbit.Flow.Query.{
  WorkflowResult, status_in, result_in, failure_in, result_of, failure_of, load_events_sync,
  query_status, get_result, get_error, output_in, end_in, error_in,
}

-- How a workflow ended, and what is told of it.
pub data End (J : Type 0) : Type 0 where
  by_output : J → End J
  by_failure : String → End J

module _ {J : Type 0} where
  abbrev pub event_of : WorkflowId → ℤ → End J → WorkflowEvent J
  event_of wid t (by_output out) = workflow_completed wid out t
  event_of wid t (by_failure msg) = workflow_failed wid msg t

  abbrev pub told_result : End J → (J → WorkflowResult J) → Option (WorkflowResult J)
  told_result (by_output out) r = some (r out)
  told_result (by_failure msg) r = none

  abbrev pub told_error : End J → Option (String × String)
  told_error (by_output out) = none
  told_error (by_failure msg) = some ("WorkflowFailed", msg)

  abbrev pub told_status : End J → WorkflowStatus
  told_status (by_output out) = completed
  told_status (by_failure msg) = failed

latest-value :
    {E A : Type 0} (f : E → Option A) (d a : A) (e : E) (es : List E)
    → ((b : A) → latest f b es ≡ a)
    → latest f d (e ∷ es) ≡ a
latest-value f d a e es h = elim (Option-cases (f e)) [
  | inl n ↦ rw (n, latest) (h d)
  | inr (b, s) ↦ rw (s, latest) (h b)
]

pub latest-snoc :
    {E A : Type 0} (f : E → Option A) (d a : A) (es : List E) (x : E)
    → f x ≡ some a
    → latest f d (es ++ x ∷ []) ≡ a
latest-snoc f d a [] x h = rw h refl
latest-snoc f d a (e ∷ es) x h = latest-value f d a e (es ++ x ∷ []) (λ b. latest-snoc f b a es x h)

two_more : {E : Type 0} (es : List E) (x : E) → suc (length (es ++ x ∷ [])) ≡ length es + 2
two_more es x = omega (arith, length-append es (x ∷ []))

module _ {J : Type 0} (null : J) (id wid : WorkflowId) (name : String) (input : J) (t₀ : ℤ) where
  abbrev first : WorkflowEvent J
  first = workflow_started wid name input t₀

  completed_log :
      (es : List (WorkflowEvent J)) (out : J) (t₁ : ℤ)
      → let end = workflow_completed wid out t₁ in
        (steps : ℤ) × (result_in null id (first ∷ es ++ end ∷ [])
          ≡ some (record {
            workflow_id = id;
            output = out;
            events_count = pos (length es + 2);
            steps_executed = steps;
            elapsed_ms = wrap64 (t₁ -ℤ t₀);
          }))
        × (failure_in (first ∷ es ++ end ∷ []) ≡ none)
        × (status_in (first ∷ es ++ end ∷ []) ≡ some completed)
  unfolding result_in failure_in status_in result_of failure_of Query.status_of
  completed_log es out t₁ =
      let end = workflow_completed wid out t₁ in
      let (t, p, h) = replay-Reads first (es ++ end ∷ []) in
      (
        pos (length t.completed_steps),
        rw
            (
              p,
              h.status,
              latest-snoc status_of running completed es end refl,
              get_last?-snoc (first ∷ es) end,
              two_more es end,
            )
            refl,
        rw (p, h.status, latest-snoc status_of running completed es end refl) refl,
        rw (p, h.status, latest-snoc status_of running completed es end refl) refl,
      )

  failed_log :
      (es : List (WorkflowEvent J)) (msg : String) (t₁ : ℤ)
      → let end = workflow_failed wid msg t₁ in
        (result_in null id (first ∷ es ++ end ∷ []) ≡ none)
        × (failure_in (first ∷ es ++ end ∷ []) ≡ some ("WorkflowFailed", msg))
        × (status_in (first ∷ es ++ end ∷ []) ≡ some failed)
  unfolding result_in failure_in status_in result_of failure_of Query.status_of
  failed_log es msg t₁ =
      let end = workflow_failed wid msg t₁ in
      let (t, p, h) = replay-Reads first (es ++ end ∷ []) in
      (
        rw (p, h.status, latest-snoc status_of running failed es end refl) refl,
        rw
            (
              p,
              h.status,
              latest-snoc status_of running failed es end refl,
              get_last?-snoc (first ∷ es) end,
            )
            refl,
        rw (p, h.status, latest-snoc status_of running failed es end refl) refl,
      )

module _ {J S : Type 0} {st : Storage J S} {log : String → S → List (WorkflowEvent J)}
    {snap : String → S → Option (WorkflowSnapshot J)} (laws : StorageLaws st log snap) where
  read_log : (id : WorkflowId) (s : S) → (load_events_sync st id s).0 ≡ log id.value s
  unfolding load_events_sync
  read_log id s = rw (laws.load_ok id s) refl

  -- Where the log of a workflow that was started ends with its completion, its result is the output
  -- of that event, the number of all events and the time between the first and the last, and it has
  -- no error; where it ends with its failure, it has no result and the message of that event is its
  -- error. The status agrees. The storage is any that keeps the contract.
  pub get_result-get_error :
      (null : J) (id wid : WorkflowId) (name : String) (input : J) (t₀ t₁ : ℤ)
      (es : List (WorkflowEvent J)) (end : End J) (s : S)
      → log id.value s ≡ workflow_started wid name input t₀ ∷ es ++ event_of wid t₁ end ∷ []
      → ((steps : ℤ) × ((get_result st null id s).0
            ≡ told_result end (λ out. record {
              workflow_id = id;
              output = out;
              events_count = pos (length es + 2);
              steps_executed = steps;
              elapsed_ms = wrap64 (t₁ -ℤ t₀);
            })))
        × ((get_error st id s).0 ≡ told_error end)
        × ((query_status st id s).0 ≡ some (told_status end))
  unfolding get_result get_error query_status
  get_result-get_error null id wid name input t₀ t₁ es (by_output out) s e =
      let (steps, r, f, q) = completed_log null id wid name input t₀ es out t₁ in
      ((steps, rw (read_log id s, e) r), rw (read_log id s, e) f, rw (read_log id s, e) q)
  get_result-get_error null id wid name input t₀ t₁ es (by_failure msg) s e =
      let (r, f, q) = failed_log null id wid name input t₀ es msg t₁ in
      ((pos 0, rw (read_log id s, e) r), rw (read_log id s, e) f, rw (read_log id s, e) q)
