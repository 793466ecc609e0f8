-- ===== src/Tests/Stores.antt =====
-- The state store at concrete reports.
use stradvision.Common.{ℕ, [], pos, ◌∷◌, ◌≡◌}
use stradvision.Dict.{put}
use stradvision.Payload.{StatePayload}
use stradvision.Store.{get_agent_state, get_aggregate_load, total_load, update_agent_state}
use stradvision.Store.History.{Reports, last_report, reporters, store_reports, store_run}
use stradvision.Tests.Controllers.{naturals}

abbrev loaded : ℕ → StatePayload
loaded load = record { mode = 0; load = load; temp = 45; last_rc = pos 0 }

-- Agent 7 reports twice.
abbrev later_reports : Reports
later_reports = (8, loaded 20, 2) ∷ (7, loaded 40, 3) ∷ []

store_reports_example :
    let s = store_run ((7, loaded 80, 1) ∷ later_reports) [] in
    (get_agent_state 7 s ≡ loaded 40) × (get_aggregate_load naturals s ≡ 30)
unfolding store_run last_report reporters total_load update_agent_state put
store_reports_example = store_reports naturals (7, loaded 80, 1) later_reports 7
