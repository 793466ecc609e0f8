-- ===== src/Controller/Greeting.antt =====
-- src/agent/Agent.cpp and src/controller/Controller.cpp: the first message of a connection.
use stradvision.Agent
use stradvision.Agent.{Agent, AgentCall, reads, replies, send_hello}
use stradvision.Comm.Stream.{sealed}
use stradvision.Common.{
  ℕ, IsU32, List, [], arith, if◌then◌else◌, none, ok, refl, some, ◌==◌, ◌∷◌, ◌≡◌,
}
use stradvision.Controller.{Controller, Entry, on_message, session_of}
use stradvision.Controller.Preserved.{IsConsistent}
use stradvision.Controller.Registration.{hello_registers}
use stradvision.Dict.{find}
use stradvision.Message.{Message, hello}
use stradvision.Payload.{serialize_hello}

-- The first message that an agent sends on a new connection.
connect_greets :
    (now : ℕ) (a : Agent)
    → a.msg_hello.header.type ≡ hello
    → (m : Message) × (rest : List AgentCall) × ((Agent.on_connect now a).1
        ≡ reads ∷ replies m ∷ rest)
      × (m.header.type ≡ hello)
      × (m.payload ≡ serialize_hello (record { agent_id = a.agent_id; version = 1 }))
unfolding Agent.on_connect send_hello Agent.get_next_header_id
connect_greets now a t = (_, _, refl, t, refl)

-- An agent, with an id of 32 bits and a HELLO as its first message object, connects, and the controller,
-- in a consistent state, has no session for that connection. The
-- agent first reads, and sends a message. The controller handles it, as the wire delivers it: it then has
-- a new session under the agent's id, with that connection, no pending commands and a heartbeat of now;
-- the connection leads to it; and the sessions of the other ids are what they were.
pub agent_registers :
    (before now wall fresh conn : ℕ) (a : Agent) (c : Controller)
    → IsConsistent c
    → session_of conn c ≡ none
    → IsU32 a.agent_id
    → a.msg_hello.header.type ≡ hello
    → (m : Message) × (rest : List AgentCall) × (c' : Controller) × (e : Entry) × ((Agent.on_connect
          before a).1
        ≡ reads ∷ replies m ∷ rest)
      × (on_message now wall fresh conn (sealed m) c ≡ ok (c', []))
      × (session_of conn c' ≡ some (a.agent_id, e))
      × ((i : ℕ) → find i c'.sessions ≡ (if a.agent_id == i then some e else find i c.sessions))
      × (e.conn ≡ conn)
      × (e.session.id ≡ a.agent_id)
      × (e.session.pending_cmds ≡ [])
      × (e.session.last_heartbeat ≡ now)
agent_registers before now wall fresh conn a c v unknown w t =
    let (m, rest, greets, type, payload) = connect_greets before a t in
    let (c', e, handled, leads, others, linked, named, none_pending, fresh_beat) =
      hello_registers now wall fresh conn (sealed m) (record { agent_id = a.agent_id; version = 1 })
        c v unknown type (w, omega arith) payload in
    (m, rest, c', e, greets, handled, leads, others, linked, named, none_pending, fresh_beat)
