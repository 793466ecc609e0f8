-- ===== src/Agent/Runs.antt =====
-- The agent over time: the handlers that asio may run next, and the settings that a run of them leaves.
use stradvision.Agent
use stradvision.Agent.{
  ℤ, ℕ, Agent, AgentCall, get_next_header_id, handle_connection_error, max_attempts, on_connect,
  on_message, on_report, send_ack, send_hello, send_nack, set_mode, shutdown_agent,
}
use stradvision.Agent.Messages.{settings}
use stradvision.Bytes.{read_u32_be}
use stradvision.Common.{
  Bool-cases, List, Option, Result, [], ap, arith, if◌then◌else◌, inl, inr, length, le→ltb, ltb,
  negsuc, none, ok, pos, refl, some, sym, throw, ◌++◌, ◌==◌, ◌∙◌, ◌∷◌, ◌≡◌,
}
use stradvision.Message.{Message, cmd_set_mode}
use stradvision.Payload.{CmdSetModePayload, deserialize_set_mode, set_mode_error}

-- A connection is made or refused, a message arrives, the report is due, the connection breaks, the retry
-- is due, or a signal asks for the end.
pub data AgentEvent : Type 0 where
  connected : ℕ → AgentEvent
  refused : AgentEvent
  hears : ℕ → Message → AgentEvent
  is_due : ℕ → ℕ → ℕ → AgentEvent
  breaks : AgentEvent
  tries_again : AgentEvent
  interrupted : AgentEvent

unfoldable pub agent_step : AgentEvent → Agent → Agent × List AgentCall
agent_step (connected now) a = on_connect now a
agent_step refused a = handle_connection_error a
agent_step (hears now msg) a = Agent.on_message now msg a
agent_step (is_due now now' load) a = on_report now now' load a
agent_step breaks a = handle_connection_error a
agent_step tries_again a = (a, Agent.start a)
agent_step interrupted a = shutdown_agent a

unfoldable pub agent_run : List AgentEvent → Agent → Agent
agent_run [] a = a
agent_run (event ∷ events) a = agent_run events (agent_step event a).0

-- The messages that a run brings.
abbrev pub heard : AgentEvent → List Message
heard (hears now msg) = msg ∷ []
heard _ = []

abbrev pub all_heard : List AgentEvent → List Message
all_heard [] = []
all_heard (event ∷ events) = heard event ++ all_heard events

-- A mode command whose id is not the last one's is obeyed: its payload's first four bytes are the mode,
-- and a shorter payload is a failure that leaves the mode.
abbrev pub taken : Option ℕ → ℕ → ℕ × ℤ × ℕ → ℕ × ℤ × ℕ
taken (some mode) id s = (mode, pos 0, id)
taken none id s = (s.0, negsuc 0, id)

unfoldable pub obeyed : Message → ℕ × ℤ × ℕ → ℕ × ℤ × ℕ
obeyed m s =
    if m.header.type == cmd_set_mode
    then (if m.header.header_id == s.2
        then s
        else taken (read_u32_be m.payload) m.header.header_id s)
    else s

unfoldable pub all_obeyed : List Message → ℕ × ℤ × ℕ → ℕ × ℤ × ℕ
all_obeyed [] s = s
all_obeyed (m ∷ ms) s = all_obeyed ms (obeyed m s)

abbrev mode_of : Option ℕ → Result CmdSetModePayload
mode_of (some mode) = ok (record { mode = mode })
mode_of none = throw set_mode_error

mode_of_lem :
    (bytes : List ℕ)
    → deserialize_set_mode (record { mode = 0 }) bytes ≡ mode_of (read_u32_be bytes)
unfolding deserialize_set_mode read_u32_be
mode_of_lem [] = refl
mode_of_lem (x ∷ []) = refl
mode_of_lem (x ∷ y ∷ []) = refl
mode_of_lem (x ∷ y ∷ z ∷ []) = refl
mode_of_lem (x ∷ y ∷ z ∷ w ∷ rest) = rw (le→ltb (length (x ∷ y ∷ z ∷ w ∷ rest)) 4 (omega arith))

set_mode-settings :
    (now id : ℕ) (a : Agent) (found : Option ℕ)
    → settings (set_mode now id (record a { cmd_set_mode_header_id = id }) (mode_of found)).0
      ≡ taken found id (settings a)
unfolding set_mode send_ack send_nack get_next_header_id
set_mode-settings now id a (some mode) = refl
set_mode-settings now id a none = refl

on_message-settings :
    (now : ℕ) (msg : Message) (a : Agent)
    → settings (Agent.on_message now msg a).0 ≡ obeyed msg (settings a)
unfolding on_message obeyed
on_message-settings now msg a = elim (Bool-cases (msg.header.type == cmd_set_mode)) [
  | inl t ↦ rw t (elim (Bool-cases (msg.header.header_id == a.cmd_set_mode_header_id)) [
    | inl d ↦ rw d (unfold send_nack get_next_header_id in refl)
    | inr d ↦
        rw (d, mode_of_lem msg.payload)
          (set_mode-settings now msg.header.header_id a (read_u32_be msg.payload))
  ])
  | inr t ↦ rw t (unfold send_nack get_next_header_id in refl)
]

error-settings : (a : Agent) → settings (handle_connection_error a).0 ≡ settings a
unfolding handle_connection_error
error-settings a = elim (Bool-cases (ltb a.attempts max_attempts)) [ inl e ↦ rw e | inr e ↦ rw e ]

step-settings :
    (event : AgentEvent) (a : Agent)
    → settings (agent_step event a).0 ≡ all_obeyed (heard event) (settings a)
unfolding agent_step all_obeyed
step-settings (connected now) a = unfold on_connect send_hello get_next_header_id in refl
step-settings refused a = error-settings a
step-settings (hears now msg) a = on_message-settings now msg a
step-settings (is_due now now' load) a = unfold on_report get_next_header_id in refl
step-settings breaks a = error-settings a
step-settings tries_again a = refl
step-settings interrupted a =
    unfold shutdown_agent in elim (Bool-cases a.is_stopping) [ inl e ↦ rw e | inr e ↦ rw e ]

all_obeyed-append :
    (xs ys : List Message) (s : ℕ × ℤ × ℕ)
    → all_obeyed (xs ++ ys) s ≡ all_obeyed ys (all_obeyed xs s)
unfolding all_obeyed
all_obeyed-append [] ys s = refl
all_obeyed-append (x ∷ xs) ys s = all_obeyed-append xs ys (obeyed x s)

-- Along every run of the agent's handlers, in any order, the mode, the last result and the last id are
-- those that the messages of the run leave, in their order: a mode command with another id than the last
-- one's is obeyed, a shorter payload than four bytes is a failure that keeps the mode, and a duplicate, a
-- message of another type, a report, a broken or a new connection and a shutdown change none of the three.
pub agent_run-settings :
    (events : List AgentEvent) (a : Agent)
    → settings (agent_run events a) ≡ all_obeyed (all_heard events) (settings a)
unfolding agent_run all_obeyed
agent_run-settings [] a = refl
agent_run-settings (event ∷ events) a =
    agent_run-settings events (agent_step event a).0
    ∙ ap (all_obeyed (all_heard events)) (step-settings event a)
    ∙ sym (all_obeyed-append (heard event) (all_heard events) (settings a))
