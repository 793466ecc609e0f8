-- ===== src/Metrics.antt =====
-- include/controller/MetricsTracker.hpp. The atomics wrap; the `int` gauge is its 32-bit pattern.
use stradvision.Common.{ℕ}

pub record MetricsTracker : Type 0 where
  pub active_connections : ℕ
  pub command_failures : ℕ
  pub total_rtt_ms : ℕ
  pub rtt_samples : ℕ
