-- ===== src/Tests/Registrations.antt =====
-- Registered and ended sessions at concrete inputs.
use mathlib.Core.Option
use stradvision.Agent
use stradvision.Agent.{Agent, AgentCall, on_connect, reads, replies}
use stradvision.Bytes.{read_u32_be, write_u32_be}
use stradvision.Comm.Stream.{sealed}
use stradvision.Common.{
  ℕ, All, IsU32, List, [], arith, false, if◌then◌else◌, inl, inr, none, ok, refl, some, throw, true,
  u32, ◌*◌, ◌+◌, ◌==◌, ◌∷◌, ◌≡◌,
}
use stradvision.Common.Perms.{flat}
use stradvision.Controller.{
  Controller, Entry, cancels_accept, cancels_checks, healthy_entry, lock, on_accept, on_error,
  on_message, on_unregistered, register, session_of, sub_connection,
}
use stradvision.Controller.Accounts.{dropped_twice}
use stradvision.Controller.Commands.{shutdown_controller}
use stradvision.Controller.Config.{create, load_policies}
use stradvision.Controller.Endings.{IsMalformed, malformed_ends}
use stradvision.Controller.Gauge.{gauge}
use stradvision.Controller.Greeting.{agent_registers}
use stradvision.Controller.Health.{swept}
use stradvision.Controller.Quiet.{IsQuiet}
use stradvision.Controller.Registration.{newcomer, replaced_connection}
use stradvision.Controller.Shutdown.{farewell, idle, shutdown_once}
use stradvision.Controller.Steps.{
  ControllerEvent, connects_to, controller_run, controller_step, receives, run_calls, stops,
}
use stradvision.Dict.{find}
use stradvision.Message.{Message, ack, message}
use stradvision.Payload.{deserialize_hello, serialize_hello}
use stradvision.Session.{is_healthy, nanos}
use stradvision.Tests.Agents.{linked_agent}
use stradvision.Tests.Controllers.{
  agent_seven, joined, joined-IsConsistent, joined_session, naturals, started, started-IsConsistent,
}

no_session : session_of 5 started ≡ none
unfolding create load_policies session_of find
no_session = refl

agent_registers_example :
    (m : Message) × (rest : List AgentCall) × (c' : Controller) × (e : Entry) × ((Agent.on_connect 0
        linked_agent).1
      ≡ reads ∷ replies m ∷ rest)
    × (on_message 1 1 200 5 (sealed m) started ≡ ok (c', []))
    × (session_of 5 c' ≡ some (7, e))
    × ((i : ℕ) → find i c'.sessions ≡ (if 7 == i then some e else find i started.sessions))
    × (e.conn ≡ 5)
    × (e.session.id ≡ 7)
    × (e.session.pending_cmds ≡ [])
    × (e.session.last_heartbeat ≡ 1)
unfolding Agent.create message
agent_registers_example =
    agent_registers 0 1 1 200 5 linked_agent started started-IsConsistent no_session (omega arith)
      refl

replaced_connection_example :
    let c' = register 9 9 300 6 7 joined in
    (session_of 5 c' ≡ none)
    × ((on_error 5 c').sessions ≡ c'.sessions)
    × (session_of 6 (on_error 5 c') ≡ some (7, newcomer 9 9 300 6 7 joined))
replaced_connection_example =
    replaced_connection 9 9 300 5 6 7 agent_seven joined joined-IsConsistent joined_session
      λ e. omega arith

abbrev short_ack : Message
short_ack = message 0 ack (0 ∷ 1 ∷ []) 7 3 0

short_ack-IsMalformed : IsMalformed short_ack
unfolding message
short_ack-IsMalformed = inr (inl (refl, omega arith))

malformed_ends_example :
    let c' = controller_step naturals (receives 9 9 300 5 short_ack) joined in
    ((what : List ℕ) × (on_message 9 9 300 5 short_ack joined ≡ throw what))
    × ((i : ℕ) → find i c'.sessions ≡ (if 7 == i then none else find i joined.sessions))
    × (c'.tracker ≡ sub_connection joined.tracker)
malformed_ends_example =
    malformed_ends naturals 9 9 300 5 7 short_ack agent_seven joined joined-IsConsistent
      joined_session (λ e. omega arith) short_ack-IsMalformed

goes_on : joined.is_shutting_down ≡ false
unfolding controller_run controller_step create load_policies on_accept on_message on_unregistered
    register session_of lock find message serialize_hello deserialize_hello write_u32_be read_u32_be
goes_on = refl

abbrev afterwards : List ControllerEvent
afterwards = receives 9 9 300 5 short_ack ∷ connects_to 9 9 400 6 ∷ stops ∷ []

shutdown_once_example :
    let (c', calls) = shutdown_controller joined in
    let c'' = controller_run naturals afterwards c' in
    ((i : ℕ) → find i c'.sessions ≡ Option.map idle (find i joined.sessions))
    × (calls
        ≡ cancels_accept ∷ cancels_checks ∷ flat (farewell joined.messages.heap) joined.sessions)
    × All IsQuiet (run_calls naturals afterwards c')
    × (shutdown_controller c'' ≡ (c'', []))
shutdown_once_example = shutdown_once naturals afterwards joined goes_on

-- Agent 7 on connection 5, written out.
abbrev one_agent : Controller
one_agent = record started { sessions = (7, agent_seven) ∷ []; contexts = (5, 0) ∷ []; created = 1 }

abbrev silent : ℕ
silent = 10 * nanos

is_silent : healthy_entry silent (λ conn. true) agent_seven ≡ false
unfolding is_healthy
is_silent = refl

one_agent-IsU32 : IsU32 (gauge one_agent)
unfolding create load_policies
one_agent-IsU32 = omega arith

dropped_twice_example :
    let c' = on_error 5 (swept silent (λ conn. true) one_agent).0 in
    (c'.sessions ≡ []) × (u32 (gauge c' + 2) ≡ gauge one_agent)
dropped_twice_example =
    dropped_twice silent 7 (λ conn. true) agent_seven one_agent one_agent-IsU32 refl is_silent
