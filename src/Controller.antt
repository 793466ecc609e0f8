-- ===== src/Controller.antt =====
-- include/controller/Controller.hpp, policy/Policy.hpp and src/controller/Controller.cpp: the state, the
-- connections, and `onMessage`. A connection is a number; a session object has a number of its own, so
-- that a `weak_ptr` to it is that number, and locks as long as a session with it is registered: only
-- `sessions_` keeps session objects alive between two handlers.
pub mod Commands
pub mod Config
pub mod Health
pub mod Lookup
pub mod Invariant
pub mod Rounds
pub mod Steps
pub mod Kept
pub mod Quiet
pub mod Cases
pub mod Preserved
pub mod Runs
pub mod Registration
pub mod Greeting
pub mod Modes
pub mod Gauge
pub mod Handled
pub mod Accounts
pub mod Cycle
pub mod Making
pub mod Order
pub mod Delivery
pub mod Stopping
pub mod Endings
pub mod Shutdown
pub mod Reload
use stradvision.Session
use stradvision.Common.{
  ℕ, Bool, List, Option, Result, [], if◌then◌else◌, none, ok, some, true, u32, ◌+◌, ◌-◌, ◌==◌, ◌^◌,
  ◌∷◌,
}
use stradvision.Dict.{erase, find, put}
use stradvision.Message.{
  Message, MessageType, ack, cmd_set_mode, heartbeat, hello, message, nack, state,
}
use stradvision.Metrics.{MetricsTracker}
use stradvision.Payload.{
  deserialize_ack, deserialize_hello, deserialize_nack, deserialize_state, ◌>>=◌,
}
use stradvision.Pool.{MessagePool, acquire, release}
use stradvision.Session.{
  Call, Session, disconnects, get_agent_id, handle_ack, is_healthy, set_agent_id, update_heartbeat,
}
use stradvision.Store.{StateStore, no_state, update_agent_state}

pub record PolicyCondition : Type 0 where
  pub metric : List ℕ
  pub op : List ℕ
  pub threshold : ℕ

pub record PolicyAction : Type 0 where
  pub command : MessageType
  pub mode : ℕ

pub record Policy : Type 0 where
  pub name : List ℕ
  pub condition : PolicyCondition
  pub action : PolicyAction

pub record Entry : Type 0 where
  pub sid : ℕ
  pub conn : ℕ
  pub session : Session

abbrev pub Sessions : Type 0
Sessions = List (ℕ × Entry)

-- What the controller asks of asio and, by `on_link`, of a connection.
pub data ControllerCall : Type 0 where
  on_link : ℕ → Call → ControllerCall
  starts_reading : ℕ → ControllerCall
  accepts : ControllerCall
  checks_in : ℕ → ControllerCall
  cancels_accept : ControllerCall
  cancels_checks : ControllerCall

-- `created` counts the session objects, `contexts` are the connections' contexts.
pub record Controller : Type 0 where
  pub sessions : Sessions
  pub contexts : List (ℕ × ℕ)
  pub created : ℕ
  pub messages : MessagePool
  pub states : StateStore
  pub policies : List Policy
  pub last_policy_file_time : ℕ
  pub message_counters : List (ℕ × ℕ)
  pub overload_mode : Bool
  pub is_shutting_down : Bool
  pub tracker : MetricsTracker
  pub has_metrics_server : Bool

-- `active_connections.fetch_add(1)` and `fetch_sub(1)` on an `int`
abbrev pub add_connection : MetricsTracker → MetricsTracker
add_connection t = record t { active_connections = u32 (t.active_connections + 1) }

abbrev pub sub_connection : MetricsTracker → MetricsTracker
sub_connection t = record t { active_connections = u32 (t.active_connections + (2 ^ 32 - 1)) }

-- `weak_ptr::lock`
unfoldable pub lock : ℕ → Sessions → Option (ℕ × Entry)
lock sid [] = none
lock sid ((k, e) ∷ sessions) = if e.sid == sid then some (k, e) else lock sid sessions

abbrev pub lock_context : Sessions → Option ℕ → Option (ℕ × Entry)
lock_context sessions none = none
lock_context sessions (some sid) = lock sid sessions

unfoldable pub session_of : ℕ → Controller → Option (ℕ × Entry)
session_of conn c = lock_context c.sessions (find conn c.contexts)

-- A session object goes away when `sessions_` lets go of it, and its message returns to the pool.
abbrev pub destroyed : Option Entry → MessagePool → MessagePool
destroyed none messages = messages
destroyed (some e) messages = release e.session.msg_set_mode messages

-- `std::make_shared<AgentTcpSession>`, with the readings of the two clocks and what `new` would return.
unfoldable pub new_session : ℕ → ℕ → ℕ → MessagePool → Session × MessagePool
new_session now wall fresh messages =
    let (messages₁, p) = acquire (message wall cmd_set_mode [] 0 0 0) fresh messages in
    let (s, heap) = Session.create now wall true true messages₁.heap p in
    (s, record messages₁ { heap = heap })

unfoldable pub do_accept : Controller → List ControllerCall
do_accept c = if c.is_shutting_down then [] else accepts ∷ []

-- The handler of `async_accept` without an error. The session that it makes is kept by nobody.
unfoldable pub on_accept : ℕ → ℕ → ℕ → ℕ → Controller → Controller × List ControllerCall
on_accept now wall fresh conn c =
    let (s, messages) = new_session now wall fresh c.messages in
    let c' = record c {
      tracker = add_connection c.tracker;
      messages = release s.msg_set_mode messages;
    } in
    (c', starts_reading conn ∷ do_accept c')

unfoldable pub on_accept_error : Controller → Controller × List ControllerCall
on_accept_error c = (c, do_accept c)

abbrev pub drop_session : Option (ℕ × Entry) → Controller → Controller
drop_session none c = c
drop_session (some (k, e)) c = if e.session.id == 0 then c else record c {
  sessions = erase e.session.id c.sessions;
  messages = destroyed (find e.session.id c.sessions) c.messages;
}

-- The error handler of a connection.
unfoldable pub on_error : ℕ → Controller → Controller
on_error conn c =
    let c' = drop_session (session_of conn c) c in record c' { tracker = sub_connection c'.tracker }

unfoldable pub register : ℕ → ℕ → ℕ → ℕ → ℕ → Controller → Controller
register now wall fresh conn agent_id c =
    let (s, messages) = new_session now wall fresh c.messages in
    let e : Entry = record { sid = c.created; conn = conn; session = set_agent_id s agent_id } in
    record c {
      sessions = put agent_id e c.sessions;
      contexts = put conn c.created c.contexts;
      created = c.created + 1;
      messages = destroyed (find agent_id c.sessions) messages;
    }

-- A session object that was changed in place.
abbrev pub with_session : ℕ → Entry → Session → Controller → Controller
with_session k e s c = record c { sessions = put k (record e { session = s }) c.sessions }

unfoldable pub acked : ℕ → ℕ → Entry → ℕ → Controller → Controller
acked now k e cmd_id c =
    let (s, t) = handle_ack now cmd_id e.session c.tracker in
    record (with_session k e s c) { tracker = t }

abbrev pub HandlerResult : Type 0
HandlerResult = Result (Controller × List ControllerCall)

-- `onMessage` from the test for HELLO on, with the session that was found.
unfoldable pub on_registered : ℕ → Message → ℕ → Entry → Controller → HandlerResult
on_registered now msg k e c =
    let type = msg.header.type in
    if type == hello
    then ok (c, [])
    else if type == heartbeat
    then ok (with_session k e (update_heartbeat now e.session) c, [])
    else if type == state
    then (do
      payload ← deserialize_state no_state msg.payload
      let states = update_agent_state (get_agent_id e.session) payload msg.header.timestamp c.states
      ok (record c { states = states }, []))
    else if type == ack
    then (do
      payload ← deserialize_ack (record { cmd_id = 0 }) msg.payload
      ok (acked now k e payload.cmd_id c, []))
    else if type == nack
    then (do
      payload ← deserialize_nack (record { cmd_id = 0; reason = [] }) msg.payload
      ok (acked now k e payload.cmd_id c, []))
    else ok (c, [])

-- The registration step of `onMessage`.
unfoldable pub on_unregistered : ℕ → ℕ → ℕ → ℕ → Message → Controller → HandlerResult
on_unregistered now wall fresh conn msg c =
    if msg.header.type == hello
    then (do
      payload ← deserialize_hello (record { agent_id = 0; version = 0 }) msg.payload
      ok (register now wall fresh conn payload.agent_id c, []))
    else ok (c, on_link conn disconnects ∷ [])

abbrev pub dispatch : ℕ → ℕ → ℕ → ℕ → Message → Controller → Option (ℕ × Entry) → HandlerResult
dispatch now wall fresh conn msg c none = on_unregistered now wall fresh conn msg c
dispatch now wall fresh conn msg c (some (k, e)) = on_registered now msg k e c

-- `throw` leaves `onMessage` by an exception, with the controller as it was.
unfoldable pub on_message : ℕ → ℕ → ℕ → ℕ → Message → Controller → HandlerResult
on_message now wall fresh conn msg c = dispatch now wall fresh conn msg c (session_of conn c)

abbrev pub on_links : ℕ → List Call → List ControllerCall
on_links conn [] = []
on_links conn (call ∷ calls) = on_link conn call ∷ on_links conn calls

abbrev pub healthy_entry : ℕ → (ℕ → Bool) → Entry → Bool
healthy_entry now is_open e = is_healthy now (is_open e.conn) e.session
