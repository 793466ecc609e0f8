-- ===== src/Controller/Cycle.antt =====
-- The way of a mode command: from the policy through a session to its agent, and the acknowledgement back.
use stradvision.Session
use stradvision.Agent
use stradvision.Session.Checks
use stradvision.Agent.{Agent, get_next_header_id, replies, send_ack, set_mode}
use stradvision.Agent.Messages.{settings}
use stradvision.Comm.Stream.{sealed}
use stradvision.Common.{
  ℕ, Bool, IsU32, [], ap, eq→==, ne→==, none, ok, pos, refl, some, sym, true, ◌∙◌, ◌∷◌, ◌≡◌, ◌≢◌,
}
use stradvision.Controller.{Controller, Entry, acked, healthy_entry, on_link, on_registered}
use stradvision.Controller.Health.{command_entry}
use stradvision.Controller.Invariant.{IsRegistered}
use stradvision.Controller.Kept.{command_entry-IsRegistered}
use stradvision.Dict.{find}
use stradvision.Dict.Laws.{find-put}
use stradvision.Message.{Heap, Message, ack, cmd_set_mode}
use stradvision.Payload.{serialize_ack, serialize_set_mode}
use stradvision.Payload.RoundTrip.{ack-IsPayload, set_mode-IsPayload}
use stradvision.Session.{
  PendingCommand, Session, get_set_mode_msg, handle_ack, is_healthy, sends, track_command,
}
use stradvision.Session.Ack.{handle_ack-find, is_healthy_iff}
use stradvision.Session.Checks.{IsValid}

-- The pending command that a mode command makes.
abbrev pub pending_of : ℕ → Entry → PendingCommand
pending_of now e = record { msg = e.session.msg_set_mode; last_send = now; retry_count = 0 }

healthy-has_conn :
    (now : ℕ) (connected : Bool) (s : Session)
    → is_healthy now connected s ≡ true
    → s.has_conn ≡ true
healthy-has_conn now connected s h = ((is_healthy_iff now connected s).0 h).0

-- A mode command for a healthy session sends the session's own message object, with the command's id and
-- mode, on the session's connection, and leaves the command pending under its id.
command_sent :
    (now mode id : ℕ) (is_open : ℕ → Bool) (e : Entry) (heap : Heap)
    → healthy_entry now is_open e ≡ true
    → let (e', calls, heap') = command_entry now is_open mode id e heap in
      (calls ≡ on_link e.conn (sends (heap' e.session.msg_set_mode)) ∷ [])
      × (find id e'.session.pending_cmds ≡ some (pending_of now e))
unfolding command_entry get_set_mode_msg track_command Session.send
command_sent now mode id is_open e heap h =
    rw
      (
        h,
        eq→== e.session.msg_set_mode e.session.msg_set_mode refl,
        healthy-has_conn now (is_open e.conn) e.session h,
      )
      (refl, find-put id id (pending_of now e) e.session.pending_cmds ∙ rw (eq→== id id refl))

-- The message object after the command.
command-heap :
    (now mode id : ℕ) (is_open : ℕ → Bool) (e : Entry) (heap : Heap)
    → healthy_entry now is_open e ≡ true
    → let m = (command_entry now is_open mode id e heap).2 e.session.msg_set_mode in
      (m.header.type ≡ (heap e.session.msg_set_mode).header.type)
      × (m.header.header_id ≡ id)
      × (m.payload ≡ serialize_set_mode (record { mode = mode }))
unfolding command_entry get_set_mode_msg
command-heap now mode id is_open e heap h =
    rw (h, eq→== e.session.msg_set_mode e.session.msg_set_mode refl) (refl, refl, refl)

-- An agent takes a new mode command, and acknowledges its id.
accepts_command :
    (now mode : ℕ) (m : Message) (a : Agent)
    → IsU32 mode
    → m.header.type ≡ cmd_set_mode
    → m.payload ≡ serialize_set_mode (record { mode = mode })
    → m.header.header_id ≢ a.cmd_set_mode_header_id
    → a.has_link ≡ true
    → let (a', calls) = Agent.on_message now m a in
      (settings a' ≡ (mode, pos 0, m.header.header_id))
      × ((r : Message) × (calls ≡ replies r ∷ [])
          × (r.header.type ≡ a.msg_ack.header.type)
          × (r.payload ≡ serialize_ack (record { cmd_id = m.header.header_id })))
unfolding Agent.on_message set_mode Agent.send_ack Agent.get_next_header_id
accepts_command now mode m a v t p ne l =
    rw (eq→== _ _ t, ne→== _ _ ne, p, set_mode-IsPayload.round_trip (record { mode = mode }) v, l)
      (refl, (_, refl, refl, refl))

-- An acknowledgement by a registered agent.
ack_handled :
    (now k id : ℕ) (r : Message) (e : Entry) (c : Controller)
    → IsU32 id
    → r.header.type ≡ ack
    → r.payload ≡ serialize_ack (record { cmd_id = id })
    → on_registered now r k e c ≡ ok (acked now k e id c, [])
unfolding on_registered
ack_handled now k id r e c v t p = rw (t, p, ack-IsPayload.round_trip (record { cmd_id = id }) v)

acked-find :
    (now k id : ℕ) (e : Entry) (c : Controller)
    → Checks.IsValid e.session
    → (e' : Entry) × (find k (acked now k e id c).sessions ≡ some e')
      × (find id e'.session.pending_cmds ≡ none)
acked-find now k id e c v = (
  record e { session = (handle_ack now id e.session c.tracker).0 },
  unfold acked in (find-put k k _ c.sessions ∙ rw (eq→== k k refl)),
  handle_ack-find now id id e.session c.tracker v ∙ rw (eq→== id id refl),
)

-- A mode command of 32 bits for a healthy session, with a new id for its agent. One message is sent, on
-- the session's connection, and the command is pending. The agent, connected, receives it as the wire
-- delivers it, takes the mode with result 0, and sends one reply. The controller receives the reply as the
-- wire delivers it, and the command is no longer pending.
pub command_cycle :
    (now later last mode id k : ℕ) (is_open : ℕ → Bool) (e : Entry) (heap : Heap) (a : Agent)
    (c : Controller)
    → IsU32 mode
    → IsU32 id
    → IsRegistered c.created k e
    → healthy_entry now is_open e ≡ true
    → (heap e.session.msg_set_mode).header.type ≡ cmd_set_mode
    → a.has_link ≡ true
    → a.msg_ack.header.type ≡ ack
    → id ≢ a.cmd_set_mode_header_id
    → let (e', calls, heap') = command_entry now is_open mode id e heap in
      let m = heap' e.session.msg_set_mode in
      let (a', sent) = Agent.on_message later (sealed m) a in
      (calls ≡ on_link e.conn (sends m) ∷ [])
      × (find id e'.session.pending_cmds ≡ some (pending_of now e))
      × (settings a' ≡ (mode, pos 0, id))
      × ((r : Message) × (e'' : Entry) × (sent ≡ replies r ∷ [])
          × (on_registered last (sealed r) k e' c ≡ ok (acked last k e' id c, []))
          × (find k (acked last k e' id c).sessions ≡ some e'')
          × (find id e''.session.pending_cmds ≡ none))
command_cycle now later last mode id k is_open e heap a c vm vi w h t l ta ne =
    let (calls, pending) = command_sent now mode id is_open e heap h in
    let (type, same_id, payload) = command-heap now mode id is_open e heap h in
    let m = (command_entry now is_open mode id e heap).2 e.session.msg_set_mode in
    let (taken, reply) =
      accepts_command later mode (sealed m) a vm (type ∙ t) payload (λ q. ne (sym same_id ∙ q)) l in
    let (r, sent, type_r, payload_r) = reply in
    let e' = (command_entry now is_open mode id e heap).0 in
    let w' = (command_entry-IsRegistered now c.created k mode id is_open e heap w).1 in
    let (e'', found, no_more) = acked-find last k id e' c w'.commands in
    (
      calls,
      pending,
      taken ∙ ap (λ (x : ℕ). (mode, pos 0, x)) same_id,
      (
        r,
        e'',
        sent,
        ack_handled last k id (sealed r) e' c vi (type_r ∙ ta)
            (payload_r ∙ ap (λ (x : ℕ). serialize_ack (record { cmd_id = x })) same_id),
        found,
        no_more,
      ),
    )
