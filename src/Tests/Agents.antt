-- ===== src/Tests/Agents.antt =====
-- The agent at concrete inputs.
use Prim.Native.Nat.{min}
use stradvision.Agent.{
  Agent, create, duplicate_reason, handle_connection_error, max_attempts, on_message, send_nack,
  shutdown_agent, unknown_reason,
}
use stradvision.Agent.Lifecycle.{failures, failures_bounded, retries, shutdown_reconnects}
use stradvision.Agent.Messages.{
  IsReply, on_message-IsReply, refused, resent_command, settings, verdict,
}
use stradvision.Agent.Runs.{
  AgentEvent, agent_run, agent_run-settings, all_obeyed, breaks, connected, hears, interrupted,
  is_due, obeyed, tries_again,
}
use stradvision.Bytes.{read_u32_be}
use stradvision.Common.{List, [], arith, pos, refl, true, ◌-◌, ◌∷◌, ◌≡◌, ◌≤◌}
use stradvision.Message.{Message, cmd_set_mode, cmd_start, message}

abbrev pub linked_agent : Agent
linked_agent = record (create 7 0 0 0 0 0) { has_link = true; attempts = 1 }

abbrev start_command : Message
start_command = message 0 cmd_start [] 0 12 0

abbrev mode_command : Message
mode_command = message 0 cmd_set_mode (0 ∷ 0 ∷ 0 ∷ 3 ∷ []) 0 12 0

is_linked : linked_agent.has_link ≡ true
is_linked = refl

on_message-IsReply_example :
    IsReply 12 (refused unknown_reason) (on_message 9 start_command linked_agent).1
unfolding message verdict create
on_message-IsReply_example = on_message-IsReply 9 start_command linked_agent is_linked refl refl

resent_command_example :
    let a' = (on_message 9 mode_command linked_agent).0 in
    (settings (on_message 10 mode_command a').0 ≡ settings a')
    × ((on_message 10 mode_command a').1 ≡ (send_nack 10 12 duplicate_reason a').1)
unfolding message
resent_command_example = resent_command 9 10 mode_command mode_command linked_agent refl refl refl

attempts_left : linked_agent.attempts ≤ max_attempts
attempts_left = omega arith

failures_bounded_example :
    retries (failures 5 linked_agent).1 ≡ min 5 (max_attempts - linked_agent.attempts)
failures_bounded_example = failures_bounded 5 linked_agent attempts_left

shutdown_reconnects_example :
    let (a', stopping) = shutdown_agent linked_agent in
    let (a'', calls) = handle_connection_error a' in
    (a'.is_stopping ≡ true) × (a''.is_stopping ≡ true) × (retries calls ≡ 1)
shutdown_reconnects_example = shutdown_reconnects linked_agent is_linked (omega arith)

abbrev busy_day : List AgentEvent
busy_day =
    connected 1
    ∷ hears 2 mode_command
    ∷ is_due 3 4 5
    ∷ breaks
    ∷ tries_again
    ∷ connected 6
    ∷ hears 7 mode_command
    ∷ hears 8 start_command
    ∷ interrupted
    ∷ []

agent_run-settings_example : settings (agent_run busy_day linked_agent) ≡ (3, pos 0, 12)
unfolding all_obeyed obeyed message read_u32_be create
agent_run-settings_example = agent_run-settings busy_day linked_agent
