-- ===== src/Controller/Registration.antt =====
-- HELLO: which session a connection has, and what becomes of the session that another connection had
-- under the same id.
use mathlib.Core.Bool.{true≢false}
use stradvision.Session
use mathlib.Core.Option.{some-injective}
use stradvision.Common.{
  ℕ, Bool-cases, [], ap, arith, eq→==, if◌then◌else◌, inl, inr, ne→==, none, ok, refl, some, sym,
  ◌==◌, ◌∙◌, ◌≡◌, ◌≢◌,
}
use stradvision.Controller.{
  Controller, Entry, lock, lock_context, new_session, on_error, on_message, on_unregistered,
  register, session_of, sub_connection,
}
use stradvision.Controller.Lookup.{lock-find, lock-none}
use stradvision.Controller.Preserved.{
  IsConsistent, register-IsConsistent, session_of-context, session_of-find,
}
use stradvision.Dict.{find}
use stradvision.Dict.Laws.{find-put}
use stradvision.Message.{Message, hello}
use stradvision.Payload.{HelloPayload, serialize_hello}
use stradvision.Payload.RoundTrip.{ValidHello, hello-IsPayload}
use stradvision.Session.{Session, set_agent_id}

-- The session that `register` makes, under the agent's id.
unfoldable pub newcomer : ℕ → ℕ → ℕ → ℕ → ℕ → Controller → Entry
newcomer now wall fresh conn agent_id c = record {
  sid = c.created;
  conn = conn;
  session = set_agent_id (new_session now wall fresh c.messages).0 agent_id;
}

register-sessions :
    (now wall fresh conn id i : ℕ) (c : Controller)
    → find i (register now wall fresh conn id c).sessions
      ≡ (if id == i then some (newcomer now wall fresh conn id c) else find i c.sessions)
unfolding register newcomer
register-sessions now wall fresh conn id i c =
    find-put id i (newcomer now wall fresh conn id c) c.sessions

register-contexts :
    (now wall fresh conn id i : ℕ) (c : Controller)
    → find i (register now wall fresh conn id c).contexts
      ≡ (if conn == i then some c.created else find i c.contexts)
unfolding register
register-contexts now wall fresh conn id i c = find-put conn i c.created c.contexts

session_of-register :
    (now wall fresh conn id : ℕ) (c : Controller)
    → IsConsistent c
    → session_of conn (register now wall fresh conn id c)
      ≡ some (id, newcomer now wall fresh conn id c)
session_of-register now wall fresh conn id c v =
    led
    ∙ ap (λ s. lock s c'.sessions) numbered
    ∙ lock-find id (newcomer now wall fresh conn id c) c'.sessions v'.sorted v'.distinct
        (register-sessions now wall fresh conn id id c ∙ rw (eq→== id id refl))
  where
    c' : Controller
    c' = register now wall fresh conn id c

    context : find conn (register now wall fresh conn id c).contexts ≡ some c.created
    context = register-contexts now wall fresh conn id conn c ∙ rw (eq→== conn conn refl)

    led : session_of conn c' ≡ lock c.created c'.sessions
    led = unfold session_of in ap (lock_context c'.sessions) context

    numbered : c.created ≡ (newcomer now wall fresh conn id c).sid
    numbered = unfold newcomer in refl

    v' : IsConsistent c'
    v' = register-IsConsistent now wall fresh conn id c v

-- The first HELLO of a connection, with an id and a version of 32 bits: the controller then has a new
-- session under that id, with that connection, no pending commands and a heartbeat of now; the
-- connection's context leads to it; and the sessions of the other ids are what they were.
pub hello_registers :
    (now wall fresh conn : ℕ) (msg : Message) (p : HelloPayload) (c : Controller)
    → IsConsistent c
    → session_of conn c ≡ none
    → msg.header.type ≡ hello
    → ValidHello p
    → msg.payload ≡ serialize_hello p
    → (c' : Controller) × (e : Entry) × (on_message now wall fresh conn msg c ≡ ok (c', []))
      × (session_of conn c' ≡ some (p.agent_id, e))
      × ((i : ℕ) → find i c'.sessions ≡ (if p.agent_id == i then some e else find i c.sessions))
      × (e.conn ≡ conn)
      × (e.session.id ≡ p.agent_id)
      × (e.session.pending_cmds ≡ [])
      × (e.session.last_heartbeat ≡ now)
hello_registers now wall fresh conn msg p c v unknown t valid payload = (
  register now wall fresh conn p.agent_id c,
  newcomer now wall fresh conn p.agent_id c,
  unfold on_message on_unregistered in
      rw (unknown, eq→== _ _ t, payload, hello-IsPayload.round_trip p valid),
  session_of-register now wall fresh conn p.agent_id c v,
  λ i. register-sessions now wall fresh conn p.agent_id i c,
  unfold newcomer in refl,
  unfold newcomer set_agent_id in refl,
  unfold newcomer set_agent_id new_session Session.create in refl,
  unfold newcomer set_agent_id new_session Session.create in refl,
)

on_error_unknown :
    (conn : ℕ) (c : Controller)
    → session_of conn c ≡ none
    → on_error conn c ≡ record c { tracker = sub_connection c.tracker }
unfolding on_error
on_error_unknown conn c h = rw h

-- In a consistent state, another connection registers an id that a connection has: the older connection
-- loses its session, and the error that ends it takes the newer session away neither from the map nor
-- from its connection.
pub replaced_connection :
    (now wall fresh old_conn conn id : ℕ) (old : Entry) (c : Controller)
    → IsConsistent c
    → session_of old_conn c ≡ some (id, old)
    → conn ≢ old_conn
    → let c' = register now wall fresh conn id c in
      (session_of old_conn c' ≡ none)
      × ((on_error old_conn c').sessions ≡ c'.sessions)
      × (session_of conn (on_error old_conn c') ≡ some (id, newcomer now wall fresh conn id c))
replaced_connection now wall fresh old_conn conn id old c v h ne = (
  lost,
  ap (λ (x : Controller). x.sessions) (on_error_unknown old_conn c' lost),
  ap (session_of conn) (on_error_unknown old_conn c' lost)
      ∙ same_context
      ∙ session_of-register now wall fresh conn id c v,
)
  where
    c' : Controller
    c' = register now wall fresh conn id c

    was : find id c.sessions ≡ some old
    was = session_of-find old_conn id old c v h

    context : find old_conn c'.contexts ≡ some old.sid
    context =
        register-contexts now wall fresh conn id old_conn c
        ∙ rw (ne→== conn old_conn ne) (session_of-context old_conn id old c v h)

    absent : (k : ℕ) (e : Entry) → find k c'.sessions ≡ some e → e.sid ≢ old.sid
    absent k e f same = elim (Bool-cases (id == k)) [
      | inl q ↦
          let is_new : newcomer now wall fresh conn id c ≡ e =
            some-injective _ _ (sym (register-sessions now wall fresh conn id k c ∙ (rw q)) ∙ f) in
          let numbered : c.created ≡ e.sid = unfold newcomer in ap (λ (x : Entry). x.sid) is_new in
          omega (arith, (v.entries id old was).numbered, numbered, same)
      | inr q ↦
          let before : find k c.sessions ≡ some e =
            sym (register-sessions now wall fresh conn id k c ∙ (rw q)) ∙ f in
          let same_id : k ≡ id = v.distinct k id e old before was same in
          absurd (true≢false (sym (eq→== id k (sym same_id)) ∙ q))
    ]

    same_context :
        session_of conn (record c' { tracker = sub_connection c'.tracker }) ≡ session_of conn c'
    same_context = unfold session_of in refl

    lost : session_of old_conn c' ≡ none
    lost =
        unfold session_of in
        ap (lock_context c'.sessions) context
        ∙ lock-none old.sid 0 c'.sessions (register-IsConsistent now wall fresh conn id c v).sorted
            absent
