-- ===== src/Agent.antt =====
-- include/agent/Agent.hpp and src/agent/Agent.cpp. The agent's five message objects are its own and are
-- serialised when they are sent, so that they are fields. A completion handler of asio is a function;
-- what the agent asks of its connection, its socket and its timers is a list of calls.
pub mod Messages
pub mod Lifecycle
pub mod Runs
use stradvision.Common.{
  ℤ, ℕ, Bool, List, Result, [], codes, false, fault, if◌then◌else◌, length, ltb, negsuc, ok, pos,
  throw, true, u32, ◌++◌, ◌+◌, ◌==◌, ◌∷◌,
}
use stradvision.Dict.{find, or_zero, put}
use stradvision.Message.{
  Message, MessageType, ack, cmd_set_mode, heartbeat, hello, message, nack, state,
}
use stradvision.Payload.{
  AckPayload, CmdSetModePayload, HelloPayload, NackPayload, StatePayload, deserialize_set_mode,
  serialize_ack, serialize_heartbeat, serialize_hello, serialize_nack, serialize_state,
}

-- `retries_in n` and `reports_in n` set the timer, with the handler that starts a connection or makes a
-- report. `undefined_call` is a call through an empty `conn_`, or a read behind the end of a payload.
pub data AgentCall : Type 0 where
  replies : Message → AgentCall
  drains : AgentCall
  drops : AgentCall
  closes_socket : AgentCall
  connects : AgentCall
  reads : AgentCall
  retries_in : ℕ → AgentCall
  reports_in : ℕ → AgentCall
  cancels_timer : AgentCall
  cancels_retry_timer : AgentCall
  undefined_call : AgentCall

-- The random generator and the addresses are left out; `has_link` says whether `conn_` is set.
pub record Agent : Type 0 where
  pub has_link : Bool
  pub agent_id : ℕ
  pub current_mode : ℕ
  pub last_cmd_rc : ℤ
  pub is_stopping : Bool
  pub attempts : ℕ
  pub cmd_set_mode_header_id : ℕ
  pub payload_hello : HelloPayload
  pub payload_state : StatePayload
  pub payload_ack : AckPayload
  pub payload_nack : NackPayload
  pub msg_hello : Message
  pub msg_hb : Message
  pub msg_state : Message
  pub msg_ack : Message
  pub msg_nack : Message
  pub message_counters : List (ℕ × ℕ)

abbrev pub max_attempts : ℕ
max_attempts = 3

-- The constructor, with the clock's readings for the five messages from the pool. The payload objects
-- start without a value, here 0, and each is assigned before it is read.
unfoldable pub create : ℕ → ℕ → ℕ → ℕ → ℕ → ℕ → Agent
create id t₁ t₂ t₃ t₄ t₅ = record {
  has_link = false;
  agent_id = id;
  current_mode = 0;
  last_cmd_rc = pos 0;
  is_stopping = false;
  attempts = 0;
  cmd_set_mode_header_id = 0xFFFFFFFF;
  payload_hello = record { agent_id = 0; version = 0 };
  payload_state = record { mode = 0; load = 0; temp = 0; last_rc = pos 0 };
  payload_ack = record { cmd_id = 0 };
  payload_nack = record { cmd_id = 0; reason = [] };
  msg_hello = message t₁ hello [] 0 0 0;
  msg_hb = message t₂ heartbeat [] 0 0 0;
  msg_state = message t₃ state [] 0 0 0;
  msg_ack = message t₄ ack [] 0 0 0;
  msg_nack = message t₅ nack [] 0 0 0;
  message_counters = [];
}

-- `message_counters_[type]++`
unfoldable pub get_next_header_id : MessageType → Agent → Agent × ℕ
get_next_header_id type a =
    let n = or_zero (find type a.message_counters) in
    (record a { message_counters = put type (u32 (n + 1)) a.message_counters }, n)

-- The assignments to a message object's payload and header.
abbrev pub stamped : ℕ → Agent → ℕ → List ℕ → Message → Message
stamped now a id payload msg = record msg {
  payload = payload;
  header = record msg.header {
    agent_id = a.agent_id;
    header_id = id;
    timestamp = now;
    payload_len = u32 (length payload);
  };
}

-- `conn_->send(msg)`
abbrev pub send_unchecked : Agent → Message → List AgentCall
send_unchecked a msg = if a.has_link then replies msg ∷ [] else undefined_call ∷ []

-- `if (conn_) conn_->send(msg);`
abbrev pub send_checked : Agent → Message → List AgentCall
send_checked a msg = if a.has_link then replies msg ∷ [] else []

unfoldable pub send_hello : ℕ → Agent → Agent × List AgentCall
send_hello now a =
    let payload : HelloPayload = record { agent_id = a.agent_id; version = 1 } in
    let (a₁, id) = get_next_header_id hello a in
    let msg = stamped now a id (serialize_hello payload) a.msg_hello in
    (record a₁ { payload_hello = payload; msg_hello = msg }, send_unchecked a msg)

unfoldable pub send_ack : ℕ → ℕ → Agent → Agent × List AgentCall
send_ack now cmd_id a =
    let payload : AckPayload = record { cmd_id = cmd_id } in
    let (a₁, id) = get_next_header_id ack a in
    let msg = stamped now a id (serialize_ack payload) a.msg_ack in
    (record a₁ { payload_ack = payload; msg_ack = msg }, send_checked a msg)

unfoldable pub send_nack : ℕ → ℕ → List ℕ → Agent → Agent × List AgentCall
send_nack now cmd_id reason a =
    let payload : NackPayload = record { cmd_id = cmd_id; reason = reason } in
    let (a₁, id) = get_next_header_id nack a in
    let msg = stamped now a id (serialize_nack payload) a.msg_nack in
    (record a₁ { payload_nack = payload; msg_nack = msg }, send_checked a msg)

unfoldable pub start_reporting : Agent → List AgentCall
start_reporting a = if a.is_stopping then [] else reports_in 1 ∷ []

-- The timer's handler, with the clock's two readings and the random load; 0x42340000 is `45.0f`.
unfoldable pub on_report : ℕ → ℕ → ℕ → Agent → Agent × List AgentCall
on_report now now' load a =
    let (a₁, id) = get_next_header_id heartbeat a in
    let msg_hb = stamped now a id (serialize_heartbeat (record {})) a.msg_hb in
    let payload : StatePayload = record {
      mode = a.current_mode;
      load = load;
      temp = 0x42340000;
      last_rc = a.last_cmd_rc;
    } in
    let (a₂, id') = get_next_header_id state a₁ in
    let msg_state = stamped now' a id' (serialize_state payload) a.msg_state in
    (
      record a₂ { msg_hb = msg_hb; payload_state = payload; msg_state = msg_state },
      send_unchecked a msg_hb ++ send_unchecked a msg_state ++ start_reporting a,
    )

abbrev pub duplicate_reason : List ℕ
duplicate_reason = codes "Duplicate CMD_SET_MODE command"

abbrev pub unknown_reason : List ℕ
unknown_reason = codes "Unknown message type"

-- The `try` block of `onMessage` after `deserialize`, and its `catch`.
unfoldable pub set_mode : ℕ → ℕ → Agent → Result CmdSetModePayload → Agent × List AgentCall
set_mode now id a (ok payload) =
    send_ack now id (record a { current_mode = payload.mode; last_cmd_rc = pos 0 })
set_mode now id a (throw what) = send_nack now id what (record a { last_cmd_rc = negsuc 0 })
set_mode now id a fault = (a, undefined_call ∷ [])

unfoldable pub on_message : ℕ → Message → Agent → Agent × List AgentCall
on_message now msg a =
    let id = msg.header.header_id in
    if msg.header.type == cmd_set_mode
    then (if id == a.cmd_set_mode_header_id
        then send_nack now id duplicate_reason a
        else set_mode now id (record a { cmd_set_mode_header_id = id })
            (deserialize_set_mode (record { mode = 0 }) msg.payload))
    else send_nack now id unknown_reason a

unfoldable pub get_current_mode : Agent → ℕ
get_current_mode a = a.current_mode

unfoldable pub start : Agent → List AgentCall
start a = connects ∷ []

-- The handler of `async_connect` without an error.
unfoldable pub on_connect : ℕ → Agent → Agent × List AgentCall
on_connect now a =
    let (a₁, calls) = send_hello now (record a { attempts = 0; has_link = true }) in
    (a₁, reads ∷ calls ++ start_reporting a₁)

unfoldable pub handle_connection_error : Agent → Agent × List AgentCall
handle_connection_error a =
    let dropped = if a.has_link then drops ∷ closes_socket ∷ [] else closes_socket ∷ [] in
    let a' = record a { has_link = false } in
    if ltb a.attempts max_attempts
    then (record a' { attempts = a.attempts + 1 }, dropped ++ (retries_in 5 ∷ []))
    else (a', dropped)

unfoldable pub shutdown_agent : Agent → Agent × List AgentCall
shutdown_agent a = if a.is_stopping then (a, []) else (
  record a { is_stopping = true },
  cancels_timer ∷ cancels_retry_timer ∷ (if a.has_link then drains ∷ [] else []),
)
