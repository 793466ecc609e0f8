-- ===== src/Tests/Policies.antt =====
-- The policy loop and the policy file at concrete inputs.
use mathlib.Core.List.{map}
use stradvision.Agent
use stradvision.Controller.Config
use stradvision.Agent.{Agent, create, replies}
use stradvision.Agent.Messages.{settings}
use stradvision.Comm.Stream.{sealed}
use stradvision.Common.{
  List, Option, [], ap, arith, codes, none, ok, pos, refl, some, true, ◌++◌, ◌<◌, ◌∷◌, ◌≡◌, ◌⊎◌,
}
use stradvision.Controller.{
  Controller, ControllerCall, Entry, Policy, healthy_entry, on_link, on_message,
}
use stradvision.Controller.Config.{RawPolicy, check_policy_update, load_policies, to_policy}
use stradvision.Controller.Cycle.{pending_of}
use stradvision.Controller.Delivery.{mode_change_delivered, next_id}
use stradvision.Controller.Health.{change_mode}
use stradvision.Controller.Reload.{file_of, reload_whole}
use stradvision.Dict.{find, or_zero}
use stradvision.Message.{Message, hello, message}
use stradvision.Session.{is_healthy, sends}
use stradvision.Tests.Agents.{linked_agent}
use stradvision.Tests.Controllers.{
  agent_seven, joined, joined-IsConsistent, joined_ready, joined_session, started,
}

abbrev raw_above : RawPolicy
raw_above = record {
  name = codes "up";
  metric = codes "load";
  operator = codes ">";
  threshold = 75;
  command_text = codes "CMD_SET_MODE";
  mode = 1;
}

abbrev raw_below : RawPolicy
raw_below = record raw_above { name = codes "down"; operator = codes "<"; threshold = 60; mode = 0 }

abbrev pub above : Policy
above = to_policy hello raw_above

abbrev pub below : Policy
below = to_policy hello raw_below

older : started.last_policy_file_time < 5
unfolding Config.create load_policies
older = omega arith

abbrev entries : List (Option RawPolicy)
entries = some raw_above ∷ none ∷ some raw_below ∷ []

reload_whole_example :
    let file = file_of 5 entries in
    let c' = check_policy_update hello file started in
    ((raws : List RawPolicy) × (entries ≡ map some raws)
      × (c' ≡ record started { policies = map (to_policy hello) raws; last_policy_file_time = 5 })
      × (check_policy_update hello file c' ≡ c'))
    ⊎ ((before : List (Option RawPolicy)) × (after : List (Option RawPolicy)) × (entries
          ≡ before ++ none ∷ after)
        × (c' ≡ started))
reload_whole_example = reload_whole hello 5 entries started older

seven_is_healthy : healthy_entry 2 (λ conn. true) agent_seven ≡ true
unfolding is_healthy
seven_is_healthy = refl

first_id : next_id joined ≡ 0
first_id = ap or_zero joined_ready.1

mode_change_delivered_example :
    let (c₁, calls) = change_mode 2 (λ conn. true) 3 joined in
    (m r : Message) × (e₁ e₂ : Entry) × (c₂ : Controller) × ((before after : List ControllerCall)
      × (calls ≡ before ++ (on_link 5 (sends m) ∷ after)))
    × (find 7 c₁.sessions ≡ some e₁)
    × (find (next_id joined) e₁.session.pending_cmds ≡ some (pending_of 2 agent_seven))
    × (settings (Agent.on_message 5 (sealed m) linked_agent).0 ≡ (3, pos 0, next_id joined))
    × ((Agent.on_message 5 (sealed m) linked_agent).1 ≡ replies r ∷ [])
    × (on_message 9 9 500 5 (sealed r) c₁ ≡ ok (c₂, []))
    × (find 7 c₂.sessions ≡ some e₂)
    × (find (next_id joined) e₂.session.pending_cmds ≡ none)
unfolding create message
mode_change_delivered_example =
    mode_change_delivered 2 5 9 9 500 3 7 (λ conn. true) agent_seven linked_agent joined
      joined-IsConsistent joined_session seven_is_healthy joined_ready.0 (omega arith)
      (omega (arith, first_id)) refl refl λ e. omega (arith, first_id, e)
