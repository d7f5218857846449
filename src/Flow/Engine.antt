-- ===== src/Flow/Engine.antt =====
-- The engine (moonflow/core_engine.mbt): its state, its clock, what it stores, signals and handlers.
-- The world outside the program, which the clock and the handlers read and change, is threaded
-- through as a field beside the source's. Handlers do not reach back into the engine.
pub mod Step
pub mod Node
pub mod Workflow
pub mod Journal
pub mod Runs
pub mod Ends
pub mod Status
pub mod Recovery
pub mod Retries
pub mod Total
pub mod Batch
pub mod Timeout
use moonbit.Prelude.{ℕ, String, Bool, true, false, Option, none, some, List, [], ◌∷◌, if◌then◌else◌}
use moonbit.Prelude.Int.{ℤ, pos, wrap32, wrap64}
use moonbit.Prelude.Dict.{Dict, get, put}
use moonbit.Flow.Async.{Async, run}
use moonbit.Flow.Types.{WorkflowId, WorkflowError, WorkflowDef, Result, ok, err}
use moonbit.Flow.Event.{WorkflowEvent}
use moonbit.Flow.Storage.{Storage}
use moonbit.Flow.Metrics
use moonbit.Flow.Metrics.{WorkflowMetrics}

-- What the engine uses of the system and of `Json`: the clock in milliseconds, a random `Int`,
-- and the constructors of JSON values that it calls.
pub record Platform (W J : Type 0) : Type 0 where
  pub now : W → ℕ × W
  pub random : W → ℤ × W
  pub null : J
  pub object : Dict J → J

-- Calling a handler may change the world, and so may running what it returns.
abbrev pub StepExecutor : Type 0 → Type 0 → Type 0
StepExecutor W J = J → W → Async W (Result J) × W

-- `handler(input).run()`
unfoldable pub call : {W J : Type 0} → StepExecutor W J → J → W → Result J × W
unfolding run
call handler input w = let (a, w') = handler input w in run a w'

pub record Engine (W J S : Type 0) : Type 0 where
  pub storage : S
  pub registry : Dict (StepExecutor W J)
  pub workflow_defs : Dict WorkflowDef
  pub signals : Dict (Dict Bool)
  pub metrics : WorkflowMetrics
  pub world : W

abbrev signals_of : Option (Dict Bool) → Dict Bool
signals_of (some m) = m
signals_of none = []

abbrev flag : Option Bool → Bool
flag (some v) = v
flag none = false

module _ {W J S : Type 0} where
  unfoldable pub new : S → W → Engine W J S
  new s w = record {
    storage = s;
    registry = [];
    workflow_defs = [];
    signals = [];
    metrics = Metrics.new;
    world = w;
  }

  unfoldable pub register : String → StepExecutor W J → Engine W J S → Engine W J S
  register n handler e = record e { registry = put n handler e.registry }

  -- The map of a workflow's signals is created if it is not there, and written to in place.
  unfoldable pub signal : String → String → Engine W J S → Engine W J S
  signal wf_id signal_name e = record e {
    signals = put wf_id (put signal_name true (signals_of (get wf_id e.signals))) e.signals;
  }

  unfoldable pub has_signal : String → String → Engine W J S → Bool
  has_signal wf_id signal_name e = elim (get wf_id e.signals) [
    | some m ↦ flag (get signal_name m)
    | none ↦ false
  ]

  -- `handler(input).run()`
  unfoldable pub call_handler : StepExecutor W J → J → Engine W J S → Result J × Engine W J S
  call_handler handler input e =
      let (a, w) = handler input e.world in let (r, w') = run a w in (r, record e { world = w' })

module _ {W J S : Type 0} (pf : Platform W J) (st : Storage J S) where
  -- `@env.now().to_int64()`
  unfoldable pub now_ms : Engine W J S → ℤ × Engine W J S
  now_ms e = let (t, w) = pf.now e.world in (wrap64 (pos t), record e { world = w })

  -- The result of the save is dropped.
  unfoldable pub store_event : WorkflowId → WorkflowEvent J → Engine W J S → Engine W J S
  store_event wf_id event e = record e { storage = (st.save_event wf_id event e.storage).1 }

  -- Stores an event that carries the time of the call.
  unfoldable pub emit : WorkflowId → (ℤ → WorkflowEvent J) → Engine W J S → Engine W J S
  unfolding now_ms store_event
  emit wf_id event e = let (ts, e') = now_ms e in store_event wf_id (event ts) e'

  abbrev events_of : Result (List (WorkflowEvent J)) → List (WorkflowEvent J)
  events_of (ok events) = events
  events_of (err _) = []

  unfoldable pub load_all_events : WorkflowId → Engine W J S → List (WorkflowEvent J) × Engine W J S
  load_all_events id e =
      let (r, s) = st.load_events id e.storage in (events_of r, record e { storage = s })
