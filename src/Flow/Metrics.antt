-- ===== src/Flow/Metrics.antt =====
-- The counters of an engine (moonflow/monitor_metrics.mbt). The rates are floating-point numbers and
-- are not modelled.
pub mod Sums
use moonbit.Prelude.{if◌then◌else◌}
use moonbit.Prelude.Int.{ℤ, pos, ◌+ℤ◌, ltb_ℤ, wrap32, wrap64}

pub record WorkflowMetrics : Type 0 where
  pub total_started : ℤ
  pub total_completed : ℤ
  pub total_failed : ℤ
  pub total_cancelled : ℤ
  pub total_steps_executed : ℤ
  pub total_retries : ℤ
  pub total_step_time_ms : ℤ
  pub max_step_time_ms : ℤ
  pub min_step_time_ms : ℤ

unfoldable pub new : WorkflowMetrics
new = record {
  total_started = pos 0;
  total_completed = pos 0;
  total_failed = pos 0;
  total_cancelled = pos 0;
  total_steps_executed = pos 0;
  total_retries = pos 0;
  total_step_time_ms = pos 0;
  max_step_time_ms = pos 0;
  min_step_time_ms = pos 2147483647;
}

unfoldable pub record_start : WorkflowMetrics → WorkflowMetrics
record_start m = record m { total_started = wrap32 (m.total_started +ℤ pos 1) }

unfoldable pub record_completed : WorkflowMetrics → WorkflowMetrics
record_completed m = record m { total_completed = wrap32 (m.total_completed +ℤ pos 1) }

unfoldable pub record_failed : WorkflowMetrics → WorkflowMetrics
record_failed m = record m { total_failed = wrap32 (m.total_failed +ℤ pos 1) }

unfoldable pub record_cancelled : WorkflowMetrics → WorkflowMetrics
record_cancelled m = record m { total_cancelled = wrap32 (m.total_cancelled +ℤ pos 1) }

unfoldable pub record_step : WorkflowMetrics → ℤ → WorkflowMetrics
record_step m elapsed = record m {
  total_steps_executed = wrap32 (m.total_steps_executed +ℤ pos 1);
  total_step_time_ms = wrap64 (m.total_step_time_ms +ℤ elapsed);
  max_step_time_ms = if ltb_ℤ m.max_step_time_ms elapsed then elapsed else m.max_step_time_ms;
  min_step_time_ms = if ltb_ℤ elapsed m.min_step_time_ms then elapsed else m.min_step_time_ms;
}

unfoldable pub record_retry : WorkflowMetrics → WorkflowMetrics
record_retry m = record m { total_retries = wrap32 (m.total_retries +ℤ pos 1) }
