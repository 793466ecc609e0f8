-- ===== src/Controller/Preserved.antt =====
-- `onMessage` and the error handler of src/controller/Controller.cpp, and the invariant.

use mathlib.Core.Option.{none-ne-some}
use stradvision.Session
use stradvision.Session.Checks
use stradvision.Common.{
  ℕ, Bool-cases, Option, Option-cases, ap, arith, inl, inr, none, refl, some, sym, ◌+◌, ◌==◌, ◌∙◌,
  ◌≡◌,
}
use stradvision.Controller.{
  Controller, Entry, acked, drop_session, new_session, on_error, on_message, register, session_of,
}
use stradvision.Controller.Cases.{on_message_cases}
use stradvision.Controller.Invariant.{AreValid, IsRegistered, erase-AreValid, put-AreValid}
use stradvision.Controller.Kept.{changed-IsRegistered}
use stradvision.Controller.Lookup.{lock_sound}
use stradvision.Controller.Steps.{or_error}
use stradvision.Dict.{find, put}
use stradvision.Message.{Message}
use stradvision.Session.{
  PendingCommand, Session, acknowledge, handle_ack, set_agent_id, update_heartbeat,
}
use stradvision.Session.Checks.{IsValid, acks, apply, apply-IsValid, heartbeats}

-- The sessions of the controller are in the order of the agents' ids, each id once, different objects
-- that are older than the next one, each with its agent's id, its connection, and pending commands in
-- order.
abbrev pub IsConsistent : Controller → Type 0
IsConsistent c = AreValid c.created c.sessions

-- The session of a connection is registered.
pub session_of-find :
    (conn k : ℕ) (e : Entry) (c : Controller)
    → IsConsistent c
    → session_of conn c ≡ some (k, e)
    → find k c.sessions ≡ some e
unfolding session_of
session_of-find conn k e c v h = elim (Option-cases (find conn c.contexts)) [
  | inl q ↦ absurd (none-ne-some _ (rw q at h))
  | inr (sid, q) ↦ (lock_sound 0 sid k e c.sessions v.sorted (rw q at h)).0
]

-- The context of a connection with a session.
pub session_of-context :
    (conn k : ℕ) (e : Entry) (c : Controller)
    → IsConsistent c
    → session_of conn c ≡ some (k, e)
    → find conn c.contexts ≡ some e.sid
unfolding session_of
session_of-context conn k e c v h = elim (Option-cases (find conn c.contexts)) [
  | inl q ↦ absurd (none-ne-some _ (rw q at h))
  | inr (sid, q) ↦ q ∙ ap some (sym (lock_sound 0 sid k e c.sessions v.sorted (rw q at h)).1)
]

pub on_error-IsConsistent :
    (conn : ℕ) (c : Controller) → IsConsistent c → IsConsistent (on_error conn c)
unfolding on_error
on_error-IsConsistent conn c v = dropped_one (session_of conn c)
  where
    dropped_one : (o : Option (ℕ × Entry)) → IsConsistent (drop_session o c)
    dropped_one none = v
    dropped_one (some (k, e)) = elim (Bool-cases (e.session.id == 0)) [
      | inl q ↦ rw q v
      | inr q ↦ rw q (erase-AreValid c.created e.session.id c.sessions v)
    ]

-- A registered entry changed in place.
with_session-IsConsistent :
    (k : ℕ) (e : Entry) (s : Session) (c : Controller)
    → IsConsistent c
    → find k c.sessions ≡ some e
    → s.id ≡ e.session.id
    → s.has_conn ≡ e.session.has_conn
    → Checks.IsValid s
    → AreValid c.created (put k (record e { session = s }) c.sessions)
with_session-IsConsistent k e s c v f i h w =
    put-AreValid c.created c.created k (record e { session = s }) c.sessions v (omega arith)
      (changed-IsRegistered c.created k e s (v.entries k e f) i h w)
      λ j x g same. v.distinct j k x e g f same

acked-IsConsistent :
    (now k id : ℕ) (e : Entry) (c : Controller)
    → IsConsistent c
    → find k c.sessions ≡ some e
    → IsConsistent (acked now k e id c)
unfolding acked
acked-IsConsistent now k id e c v f =
    with_session-IsConsistent k e (handle_ack now id e.session c.tracker).0 c v f
      (unfold handle_ack in (handled (find id e.session.pending_cmds)).0)
      (unfold handle_ack in (handled (find id e.session.pending_cmds)).1)
      (unfold apply in
        apply-IsValid c.messages.heap c.tracker e.session (acks now id) (v.entries k e f).commands)
  where
    handled :
        (o : Option PendingCommand)
        → let s = (acknowledge now id e.session c.tracker o).0 in
          (s.id ≡ e.session.id) × (s.has_conn ≡ e.session.has_conn)
    handled none = (refl, refl)
    handled (some pc) = (refl, refl)

pub register-IsConsistent :
    (now wall fresh conn id : ℕ) (c : Controller)
    → IsConsistent c
    → IsConsistent (register now wall fresh conn id c)
unfolding register new_session
register-IsConsistent now wall fresh conn id c v =
    put-AreValid c.created (c.created + 1) id _ c.sessions v (omega arith) new
      λ j w f same. absurd (omega (arith, (v.entries j w f).numbered, same))
  where
    new : IsRegistered (c.created + 1) id (record {
      sid = c.created;
      conn = conn;
      session = set_agent_id (new_session now wall fresh c.messages).0 id;
    })
    new =
        unfold set_agent_id Session.create in
        record {
          numbered = omega arith;
          named = refl;
          linked = refl;
          commands = record { sorted = tt; bounded = tt };
        }

pub on_message-IsConsistent :
    (now wall fresh conn : ℕ) (msg : Message) (c : Controller)
    → IsConsistent c
    → IsConsistent (or_error conn c (on_message now wall fresh conn msg c))
on_message-IsConsistent now wall fresh conn msg c v =
    on_message_cases (λ r. IsConsistent (or_error conn c r)) now wall fresh conn c
      (record {
        throws = λ what. on_error-IsConsistent conn c v;
        faults = v;
        stays = λ calls rests. v;
        registers = λ id. register-IsConsistent now wall fresh conn id c v;
        beats = λ k e h.
            let f = session_of-find conn k e c v h in
            with_session-IsConsistent k e (update_heartbeat now e.session) c v f
              (unfold update_heartbeat in refl) (unfold update_heartbeat in refl)
              (unfold apply in
                apply-IsValid c.messages.heap c.tracker e.session (heartbeats now)
                  (v.entries k e f).commands);
        stores = λ states. v;
        acks = λ k id e h. acked-IsConsistent now k id e c v (session_of-find conn k e c v h);
      })
      msg
