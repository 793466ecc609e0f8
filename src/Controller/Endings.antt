-- ===== src/Controller/Endings.antt =====
-- How sessions end: by a payload that cannot be read.
use stradvision.Common.{
  ℕ, List, [], ap, if◌then◌else◌, inl, inr, length, ne→==, none, refl, some, throw, ◌<◌, ◌==◌, ◌∙◌,
  ◌≡◌, ◌≢◌, ◌⊎◌,
}
use stradvision.Controller.{
  Controller, Entry, dispatch, on_error, on_message, on_registered, session_of, sub_connection,
}
use stradvision.Controller.Preserved.{IsConsistent, session_of-find}
use stradvision.Controller.Steps.{controller_step, or_error, receives}
use stradvision.Dict.{erase, find}
use stradvision.Dict.Laws.{find-erase}
use stradvision.Message.{Message, ack, nack, state}
use stradvision.Payload.{ack_error, nack_error, state_error}
use stradvision.Payload.RoundTrip.{ack-IsPayload, nack-IsPayload, state-IsPayload}
use stradvision.Store.{FloatOps, no_state}

-- A payload that is too short for the type of its message.
abbrev pub IsMalformed : Message → Type 0
IsMalformed msg =
    ((msg.header.type ≡ state) × (length msg.payload < 16))
    ⊎ ((msg.header.type ≡ ack) × (length msg.payload < 4))
    ⊎ ((msg.header.type ≡ nack) × (length msg.payload < 4))

malformed_throws :
    (now k : ℕ) (msg : Message) (e : Entry) (c : Controller)
    → IsMalformed msg
    → (what : List ℕ) × (on_registered now msg k e c ≡ throw what)
unfolding on_registered
malformed_throws now k msg e c (inl (t, l)) =
    (state_error, rw (t, state-IsPayload.short no_state msg.payload l))
malformed_throws now k msg e c (inr (inl (t, l))) =
    (ack_error, rw (t, ack-IsPayload.short (record { cmd_id = 0 }) msg.payload l))
malformed_throws now k msg e c (inr (inr (t, l))) =
    (nack_error, rw (t, nack-IsPayload.short (record { cmd_id = 0; reason = [] }) msg.payload l))

on_error-sessions :
    (conn k : ℕ) (e : Entry) (c : Controller)
    → e.session.id ≡ k
    → k ≢ 0
    → session_of conn c ≡ some (k, e)
    → ((on_error conn c).sessions ≡ erase k c.sessions)
      × ((on_error conn c).tracker ≡ sub_connection c.tracker)
unfolding on_error
on_error-sessions conn k e c same ne h = rw (h, same, ne→== k 0 ne) (refl, refl)

-- In a consistent state a registered agent, with an id other than 0, sends a STATE, ACK or NACK with a
-- payload that is too short. Handling it throws; the connection then reports an error; and the agent
-- has no session any more, the other agents have theirs, and the gauge of connections is one lower.
pub malformed_ends :
    (f : FloatOps) (now wall fresh conn k : ℕ) (msg : Message) (e : Entry) (c : Controller)
    → IsConsistent c
    → session_of conn c ≡ some (k, e)
    → k ≢ 0
    → IsMalformed msg
    → let c' = controller_step f (receives now wall fresh conn msg) c in
      ((what : List ℕ) × (on_message now wall fresh conn msg c ≡ throw what))
      × ((i : ℕ) → find i c'.sessions ≡ (if k == i then none else find i c.sessions))
      × (c'.tracker ≡ sub_connection c.tracker)
malformed_ends f now wall fresh conn k msg e c v h ne bad =
    let (what, throws) = malformed_throws now k msg e c bad in
    let thrown : on_message now wall fresh conn msg c ≡ throw what =
      unfold on_message in (ap (dispatch now wall fresh conn msg c) h ∙ throws) in
    let named = (v.entries k e (session_of-find conn k e c v h)).named in
    let (sessions, tracker) = on_error-sessions conn k e c named ne h in
    let step : controller_step f (receives now wall fresh conn msg) c ≡ on_error conn c =
      unfold controller_step in ap (or_error conn c) thrown in
    (
      (what, thrown),
      λ i.
          ap (λ (x : Controller). find i x.sessions) step
          ∙ ap (find i) sessions
          ∙ find-erase 0 k i c.sessions v.sorted,
      ap (λ (x : Controller). x.tracker) step ∙ tracker,
    )
