-- ===== src/Flow/Clock.antt =====
-- Times (moonflow/utils_time.mbt, runtime_timer.mbt) and the context of a run (runtime_context.mbt).
-- The clock of the system, `@env.now()`, gives milliseconds and is a parameter. A timer does not
-- sleep in the source.
use moonbit.Prelude.{ℕ, String, Bool, ◌+◌, ◌/◌}
use moonbit.Prelude.Int.{ℤ, pos, negsuc, ◌-ℤ◌, ltb_ℤ, wrap32, wrap64}
use moonbit.Flow.Types.{WorkflowId}
use moonbit.Flow.Errors.{show}

pub record ExecutionContext : Type 0 where
  pub workflow_id : WorkflowId
  pub workflow_name : String
  pub step_name : String
  pub attempt : ℤ
  pub started_at : ℤ

unfoldable pub elapsed_ms : ℤ → ℤ → ℤ
elapsed_ms start end = wrap64 (end -ℤ start)

-- `Int64::to_int`
abbrev pub to_int : ℤ → ℤ
to_int a = wrap32 a

-- Division of `Int`, towards 0.
abbrev pub quotient : ℤ → ℕ → ℤ
quotient (pos n) m = pos (n / m)
quotient (negsuc n) m = pos 0 -ℤ pos ((n + 1) / m)

unfoldable pub format_timestamp : ℤ → String
unfolding show ◌-ℤ◌
format_timestamp ts = show (quotient (to_int ts) 1000)

module _ {W : Type 0} (clock : W → ℕ × W) where
  -- `@env.now().to_int64()`
  unfoldable pub now_ms : W → ℤ × W
  now_ms w = let (t, w') = clock w in (wrap64 (pos t), w')

  unfoldable pub now_sec : W → ℤ × W
  now_sec w = let (t, w') = clock w in (wrap32 (pos t), w')

  unfoldable pub is_timeout_exceeded : ℤ → ℤ → W → Bool × W
  unfolding now_ms ◌-ℤ◌
  is_timeout_exceeded start timeout_ms w =
      let (now, w') = now_ms w in (ltb_ℤ timeout_ms (wrap64 (now -ℤ start)), w')

  -- `ExecutionContext::new`
  unfoldable pub new_context : WorkflowId → String → String → W → ExecutionContext × W
  unfolding now_ms
  new_context wf_id wf_name step w =
      let (now, w') = now_ms w in
      (
        record {
          workflow_id = wf_id;
          workflow_name = wf_name;
          step_name = step;
          attempt = pos 1;
          started_at = now;
        },
        w',
      )
