-- ===== src/Controller/Delivery.antt =====
-- A change of mode, delivered: from the policy loop over all sessions to one agent, and back.
use stradvision.Agent
use mathlib.Core.Option.{some-injective, none-ne-some}
use stradvision.Agent.{Agent, replies}
use stradvision.Agent.Messages.{settings}
use stradvision.Comm.Stream.{sealed}
use stradvision.Common.{
  ℕ, ==_iff, Bool, Bool-cases, IsU32, List, [], ap, append_assoc, inl, inr, none, ok, pos, refl,
  some, sym, true, ◌++◌, ◌==◌, ◌∙◌, ◌∷◌, ◌≡◌, ◌≢◌,
}
use stradvision.Controller.{
  Controller, ControllerCall, Entry, Sessions, acked, dispatch, healthy_entry, lock_context,
  on_link, on_message, session_of,
}
use stradvision.Controller.Commands.{get_next_id}
use stradvision.Controller.Cycle.{command_cycle, pending_of}
use stradvision.Controller.Health.{change_mode, command_all, command_entry}
use stradvision.Controller.Kept.{command_entry-IsRegistered}
use stradvision.Controller.Lookup.{lock-find}
use stradvision.Controller.Preserved.{IsConsistent, session_of-context, session_of-find}
use stradvision.Controller.Rounds.{commanded?, find-command_all}
use stradvision.Controller.Runs.{change_mode-IsConsistent}
use stradvision.Dict.{find, or_zero}
use stradvision.Message.{Heap, Message, ack, cmd_set_mode}
use stradvision.Session.{get_set_mode_msg, sends}

module _ (now : ℕ) (is_open : ℕ → Bool) (mode id : ℕ) where
  -- No command changes the type of a message.
  command_entry-type :
      (e : Entry) (heap : Heap) (p : ℕ)
      → ((command_entry now is_open mode id e heap).2 p).header.type ≡ (heap p).header.type
  unfolding command_entry get_set_mode_msg
  command_entry-type e heap p = elim (Bool-cases (healthy_entry now is_open e)) [
    | inl h ↦ rw h (elim (Bool-cases (e.session.msg_set_mode == p)) [
      | inl q ↦ rw q (ap (λ (x : ℕ). (heap x).header.type) ((==_iff _ _).0 q))
      | inr q ↦ rw q
    ])
    | inr h ↦ rw h
  ]

  -- The turn of one session in the loop: the messages as they are then, and what is sent before and after.
  record HasTurn (e : Entry) (heap : Heap) (calls : List ControllerCall) : Type 0 where
    at_turn : Heap
    before : List ControllerCall
    after : List ControllerCall
    within : calls ≡ before ++ ((command_entry now is_open mode id e at_turn).1 ++ after)
    same_types : (p : ℕ) → (at_turn p).header.type ≡ (heap p).header.type

  command_all-HasTurn :
      (k : ℕ) (e : Entry) (d : Sessions) (heap : Heap)
      → find k d ≡ some e
      → HasTurn e heap (command_all now is_open mode id d heap).calls
  unfolding command_all find
  command_all-HasTurn k e [] heap h = absurd (none-ne-some _ h)
  command_all-HasTurn k e ((j, w) ∷ d) heap h =
      let heap' = (command_entry now is_open mode id w heap).2 in
      let rest = (command_all now is_open mode id d heap').calls in
      elim (Bool-cases (j == k)) [
        | inl q ↦ record {
          at_turn = heap;
          before = [];
          after = rest;
          within =
              ap (λ (x : Entry). (command_entry now is_open mode id x heap).1 ++ rest)
                (some-injective _ _ (rw q at h));
          same_types = λ p. refl;
        }
        | inr q ↦
            let r = command_all-HasTurn k e d heap' (rw q at h) in
            record {
              at_turn = r.at_turn;
              before = (command_entry now is_open mode id w heap).1 ++ r.before;
              after = r.after;
              within =
                  ap ((command_entry now is_open mode id w heap).1 ++◌) r.within
                  ∙ sym (append_assoc (command_entry now is_open mode id w heap).1 r.before _);
              same_types = λ p. r.same_types p ∙ command_entry-type w heap p;
            }
      ]

-- The id of the next mode command.
abbrev pub next_id : Controller → ℕ
next_id c = or_zero (find cmd_set_mode c.message_counters)

session_of-change_mode :
    (now mode k conn : ℕ) (is_open : ℕ → Bool) (e e₁ : Entry) (c : Controller)
    → IsConsistent c
    → session_of conn c ≡ some (k, e)
    → e₁.sid ≡ e.sid
    → find k (change_mode now is_open mode c).0.sessions ≡ some e₁
    → session_of conn (change_mode now is_open mode c).0 ≡ some (k, e₁)
unfolding change_mode get_next_id session_of
session_of-change_mode now mode k conn is_open e e₁ c v h same f =
    ap (lock_context c₁.sessions) context ∙ lock-find k e₁ c₁.sessions v₁.sorted v₁.distinct f
  where
    c₁ : Controller
    c₁ = (change_mode now is_open mode c).0

    v₁ : IsConsistent c₁
    v₁ = change_mode-IsConsistent now mode is_open c v

    context : find conn c₁.contexts ≡ some e₁.sid
    context = session_of-context conn k e c v h ∙ ap some (sym same)

-- A change of mode in a consistent state while agent k has a healthy session, whose connection leads to
-- it and whose message object is a mode command; the mode and the next id have 32 bits; the agent is
-- connected, did not take that id last, and answers by an ACK. Among what the change sends is one
-- message on the session's connection, and the session has a command pending under that id. The agent,
-- as the wire delivers the message, takes the mode with result 0 and sends one reply. The controller
-- handles the reply, as the wire delivers it, and then the command is no longer pending.
pub mode_change_delivered :
    (now later last wall fresh mode k : ℕ) (is_open : ℕ → Bool) (e : Entry) (a : Agent)
    (c : Controller)
    → IsConsistent c
    → session_of e.conn c ≡ some (k, e)
    → healthy_entry now is_open e ≡ true
    → (c.messages.heap e.session.msg_set_mode).header.type ≡ cmd_set_mode
    → IsU32 mode
    → IsU32 (next_id c)
    → a.has_link ≡ true
    → a.msg_ack.header.type ≡ ack
    → next_id c ≢ a.cmd_set_mode_header_id
    → let (c₁, calls) = change_mode now is_open mode c in
      (m r : Message) × (e₁ e₂ : Entry) × (c₂ : Controller) × ((before after : List ControllerCall)
        × (calls ≡ before ++ (on_link e.conn (sends m) ∷ after)))
      × (find k c₁.sessions ≡ some e₁)
      × (find (next_id c) e₁.session.pending_cmds ≡ some (pending_of now e))
      × (settings (Agent.on_message later (sealed m) a).0 ≡ (mode, pos 0, next_id c))
      × ((Agent.on_message later (sealed m) a).1 ≡ replies r ∷ [])
      × (on_message last wall fresh e.conn (sealed r) c₁ ≡ ok (c₂, []))
      × (find k c₂.sessions ≡ some e₂)
      × (find (next_id c) e₂.session.pending_cmds ≡ none)
unfolding change_mode get_next_id
mode_change_delivered now later last wall fresh mode k is_open e a c v h w t vm vi l ta ne =
    let found = session_of-find e.conn k e c v h in
    let turn =
      command_all-HasTurn now is_open mode (next_id c) k e c.sessions c.messages.heap found in
    let heap = turn.at_turn in
    let e₁ = (command_entry now is_open mode (next_id c) e heap).0 in
    let m = (command_entry now is_open mode (next_id c) e heap).2 e.session.msg_set_mode in
    let c₁ = (change_mode now is_open mode c).0 in
    let (calls, pending, taken, (r, e₂, sent, handled, kept, done)) =
      command_cycle now later last mode (next_id c) k is_open e heap a c₁ vm vi
        (v.entries k e found) w (turn.same_types e.session.msg_set_mode ∙ t) l ta ne in
    let found₁ : find k c₁.sessions ≡ some e₁ =
      (find-command_all now is_open k mode (next_id c) c.sessions c.messages.heap heap
        ∙ ap (commanded? now is_open mode (next_id c) heap) found) in
    let leads : session_of e.conn c₁ ≡ some (k, e₁) =
      session_of-change_mode now mode k e.conn is_open e e₁ c v h
        (command_entry-IsRegistered now c.created k mode (next_id c) is_open e heap
          (v.entries k e found)).0
        found₁ in
    (
      m,
      r,
      e₁,
      e₂,
      acked last k e₁ (next_id c) c₁,
      (turn.before, turn.after, (turn.within ∙ ap (λ x. turn.before ++ (x ++ turn.after)) calls)),
      found₁,
      pending,
      taken,
      sent,
      unfold on_message in (ap (dispatch last wall fresh e.conn (sealed r) c₁) leads ∙ handled),
      kept,
      done,
    )
