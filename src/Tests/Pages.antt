-- ===== src/Tests/Pages.antt =====
-- The metrics page at concrete inputs.

use stradvision.Common.{ℕ, List, ◌/◌}
use stradvision.Metrics.{MetricsTracker}
use stradvision.Page.{DoubleOps, page_body, put_u64}

-- A double that is a natural number.
abbrev rounded : DoubleOps
rounded = record { quotient = λ a b. a / b; print = put_u64 }

abbrev measured : MetricsTracker
measured = record {
  active_connections = 12;
  command_failures = 3;
  total_rtt_ms = 105;
  rtt_samples = 10;
}

abbrev measured_page : List ℕ
measured_page = page_body rounded measured
