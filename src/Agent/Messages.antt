-- ===== src/Agent/Messages.antt =====
-- `onMessage`: replies and modes, alone and together with the session that sent the command.
use stradvision.Agent.{
  ℤ, ℕ, Agent, AgentCall, duplicate_reason, get_next_header_id, on_message, replies, send_ack,
  send_nack, set_mode, unknown_reason,
}
use stradvision.Common.{
  ==_iff, Bool-cases, IsU32, List, Result, [], ap, eq→==, fault, if◌then◌else◌, inl, inr, length,
  ltb, ltb→le, ltb→lt, ne→==, ok, pos, refl, sym, throw, true, ◌==◌, ◌∙◌, ◌∷◌, ◌≡◌, ◌≢◌,
}
use stradvision.Message.{Heap, Message, ack, cmd_set_mode, nack}
use stradvision.Payload.{CmdSetModePayload, serialize_ack, serialize_nack, set_mode_error}
use stradvision.Payload.RoundTrip.{set_mode-IsPayload}
use stradvision.Session.{Session, get_set_mode_msg}

-- What becomes of a message: it is accepted, or refused for a reason.
pub data Verdict : Type 0 where
  accepted : Verdict
  refused : List ℕ → Verdict

-- A mode command is accepted when its id is not the last one's and its payload has a mode.
unfoldable pub verdict : Message → ℕ → Verdict
verdict msg last =
    if msg.header.type == cmd_set_mode
    then (if msg.header.header_id == last
        then refused duplicate_reason
        else (if ltb (length msg.payload) 4 then refused set_mode_error else accepted))
    else refused unknown_reason

-- What the agent says of the message with this id.
abbrev pub Says : ℕ → Verdict → Message → Type 0
Says id accepted m = (m.header.type ≡ ack) × (m.payload ≡ serialize_ack (record { cmd_id = id }))
Says id (refused reason) m =
    (m.header.type ≡ nack) × (m.payload ≡ serialize_nack (record { cmd_id = id; reason = reason }))

abbrev pub IsReply : ℕ → Verdict → List AgentCall → Type 0
IsReply id v calls = (m : Message) × (calls ≡ replies m ∷ []) × Says id v m

send_ack-IsReply :
    (now id : ℕ) (a : Agent)
    → a.has_link ≡ true
    → a.msg_ack.header.type ≡ ack
    → IsReply id accepted (send_ack now id a).1
unfolding send_ack get_next_header_id
send_ack-IsReply now id a l t = rw l (_, refl, (t, refl))

send_nack-IsReply :
    (now id : ℕ) (reason : List ℕ) (a : Agent)
    → a.has_link ≡ true
    → a.msg_nack.header.type ≡ nack
    → IsReply id (refused reason) (send_nack now id reason a).1
unfolding send_nack get_next_header_id
send_nack-IsReply now id reason a l t = rw l (_, refl, (t, refl))

-- A connected agent, whose reply objects have their types, answers every message by exactly one reply,
-- which names the message's id. A mode command of another id than the last one's, with four bytes of
-- payload or more, is answered by an ACK; every other message by a NACK with the reason: a duplicate, a
-- payload that is too short, or a type that the agent does not know.
pub on_message-IsReply :
    (now : ℕ) (msg : Message) (a : Agent)
    → a.has_link ≡ true
    → a.msg_ack.header.type ≡ ack
    → a.msg_nack.header.type ≡ nack
    → IsReply msg.header.header_id (verdict msg a.cmd_set_mode_header_id) (on_message now msg a).1
unfolding on_message verdict
on_message-IsReply now msg a l ta tn = elim (Bool-cases (msg.header.type == cmd_set_mode)) [
  | inl t ↦ rw t (elim (Bool-cases (msg.header.header_id == a.cmd_set_mode_header_id)) [
    | inl d ↦ rw d (send_nack-IsReply now _ duplicate_reason a l tn)
    | inr d ↦ rw d (elim (Bool-cases (ltb (length msg.payload) 4)) [
      | inl e ↦
          let short =
            set_mode-IsPayload.short (record { mode = 0 }) msg.payload
              (ltb→lt (length msg.payload) 4 e) in
          rw (e, short) (unfold set_mode in send_nack-IsReply now _ set_mode_error _ l tn)
      | inr e ↦
          let (q, long) =
            set_mode-IsPayload.long (record { mode = 0 }) msg.payload
              (ltb→le (length msg.payload) 4 e) in
          rw (e, long) (unfold set_mode in send_ack-IsReply now _ _ l ta)
    ])
  ])
  | inr t ↦ rw t (send_nack-IsReply now _ unknown_reason a l tn)
]

-- The mode, the result of the last command, and the id that the next command is compared with.
abbrev pub settings : Agent → ℕ × ℤ × ℕ
settings a = (a.current_mode, a.last_cmd_rc, a.cmd_set_mode_header_id)

send_ack-settings : (now id : ℕ) (a : Agent) → settings (send_ack now id a).0 ≡ settings a
unfolding send_ack get_next_header_id
send_ack-settings now id a = refl

send_nack-settings :
    (now id : ℕ) (reason : List ℕ) (a : Agent) → settings (send_nack now id reason a).0 ≡ settings a
unfolding send_nack get_next_header_id
send_nack-settings now id reason a = refl

set_mode-id :
    (now id : ℕ) (a : Agent) (r : Result CmdSetModePayload)
    → (set_mode now id (record a { cmd_set_mode_header_id = id }) r).0.cmd_set_mode_header_id ≡ id
unfolding set_mode send_ack send_nack get_next_header_id
set_mode-id now id a (ok payload) = refl
set_mode-id now id a (throw what) = refl
set_mode-id now id a fault = refl

on_message-id :
    (now : ℕ) (msg : Message) (a : Agent)
    → msg.header.type ≡ cmd_set_mode
    → (on_message now msg a).0.cmd_set_mode_header_id ≡ msg.header.header_id
unfolding on_message
on_message-id now msg a t =
    rw (eq→== _ _ t) (elim (Bool-cases (msg.header.header_id == a.cmd_set_mode_header_id)) [
      | inl d ↦ rw d (unfold send_nack get_next_header_id in sym ((==_iff _ _).0 d))
      | inr d ↦ rw d (set_mode-id now msg.header.header_id a _)
    ])

-- After a mode command, whatever the agent did with it, the agent takes a second command with the same
-- id for a duplicate: it keeps its mode, its result and the id, and answers by a refusal that gives the
-- duplicate as the reason.
pub resent_command :
    (now later : ℕ) (msg again : Message) (a : Agent)
    → msg.header.type ≡ cmd_set_mode
    → again.header.type ≡ cmd_set_mode
    → again.header.header_id ≡ msg.header.header_id
    → let a' = (on_message now msg a).0 in
      (settings (on_message later again a').0 ≡ settings a')
      × ((on_message later again a').1
          ≡ (send_nack later msg.header.header_id duplicate_reason a').1)
resent_command now later msg again a t t' same =
    let e : again.header.header_id ≡ a'.cmd_set_mode_header_id =
      same ∙ sym (on_message-id now msg a t) in
    let step : on_message later again a'
        ≡ send_nack later again.header.header_id duplicate_reason a' =
      unfold on_message in rw (eq→== _ _ t', eq→== _ _ e) in
    (
      ap (λ (p : Agent × List AgentCall). settings p.0) step
          ∙ send_nack-settings later again.header.header_id duplicate_reason a',
      ap (λ (p : Agent × List AgentCall). p.1) step ∙ rw same,
    )
  where
    a' : Agent
    a' = (on_message now msg a).0

-- The command that a session makes for a mode of 32 bits, brought to an agent whose last command has
-- another id: the agent takes the mode, with result 0, and remembers the command's id.
pub command_applied :
    (now mode id : ℕ) (s : Session) (heap : Heap) (a : Agent)
    → IsU32 mode
    → (heap s.msg_set_mode).header.type ≡ cmd_set_mode
    → id ≢ a.cmd_set_mode_header_id
    → let (s', heap', p) = get_set_mode_msg s heap mode id in
      settings (on_message now (heap' p) a).0 ≡ (mode, pos 0, id)
unfolding on_message get_set_mode_msg
command_applied now mode id s heap a v t ne =
    rw
      (
        eq→== s.msg_set_mode s.msg_set_mode refl,
        eq→== _ _ t,
        ne→== _ _ ne,
        set_mode-IsPayload.round_trip (record { mode = mode }) v,
      )
      (unfold set_mode in send_ack-settings now id _)
