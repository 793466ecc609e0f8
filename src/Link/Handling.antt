-- ===== src/Link/Handling.antt =====
-- The steps of the agent's side of a link and the invariant, and what an answer does to the session.
use mathlib.Core.Path.{subst}
use mathlib.Core.Option.{some-injective}
use stradvision.Agent
use stradvision.Agent.{Agent, AgentCall}
use stradvision.Common.{
  ℕ, All, All-append, List, Result, [], ap, eq→==, fault, inl, inr, ok, refl, some, sym, throw, ◌∙◌,
  ◌∷◌, ◌≡◌,
}
use stradvision.Controller.{Controller, ControllerCall, Entry, HandlerResult, acked, on_registered}
use stradvision.Dict.{find}
use stradvision.Dict.Laws.{find-put}
use stradvision.Link.{Link, handled_link, reported_link, sent_up}
use stradvision.Link.Invariant.{All-map, Among, Inv, IsAnswer, IsAnswer-later, IsModeOf, WellSent}
use stradvision.Link.Replies.{Answers, on_message-Answers, on_report-Answers}
use stradvision.Message.{Message}
use stradvision.Metrics.{MetricsTracker}
use stradvision.Payload.{StatePayload, deserialize_state, ◌>>=◌}
use stradvision.Payload.RoundTrip.{ack-IsPayload, nack-IsPayload}
use stradvision.Session.{get_agent_id, handle_ack, update_heartbeat}
use stradvision.Store.{no_state, update_agent_state}

pub handled_link-Inv :
    (first now : ℕ) (m : Message) (rest : List Message) (l : Link)
    → l.down ≡ m ∷ rest
    → Inv first l
    → Inv first (handled_link now m rest l)
unfolding handled_link
handled_link-Inv first now m rest l h inv =
    elim (on_message-Answers now m l.commanded l.handled l.agent w inv.types) [
      | inl a ↦ answered a (subst (IsModeOf first l.commanded) (sym a.kept) inv.mode)
      | inr a ↦ answered a (
          inr (
            m.header.header_id,
            subst (λ x. Among (m.header.header_id, x) l.commanded) (sym a.kept) w.was_made,
          ))
    ]
  where
    down : All (WellSent l.commanded) (m ∷ rest)
    down = subst (All (WellSent l.commanded)) h inv.down

    w : WellSent l.commanded m
    w = down.0

    r : Agent × List AgentCall
    r = Agent.on_message now m l.agent

    handled' : List ℕ
    handled' = m.header.header_id ∷ l.handled

    answered :
        {mode : ℕ}
        → Answers handled' mode r
        → IsModeOf first l.commanded r.0.current_mode
        → Inv first (handled_link now m rest l)
    answered a mode = record {
      valid = inv.valid;
      object = inv.object;
      pending = inv.pending;
      down = down.1;
      types = a.types;
      mode = mode;
      up =
          All-append (IsAnswer handled') l.up (sent_up r.1)
            (All-map (IsAnswer l.handled) (IsAnswer handled') l.up
              (λ x y. IsAnswer-later l.handled m.header.header_id x y) inv.up)
            a.sent;
      known = λ i g. elim g [
        | inl e ↦ (w.mode, subst (λ x. Among (x, w.mode) l.commanded) e w.was_made)
        | inr g' ↦ inv.known i g'
      ];
      traced = λ i x g. elim (inv.traced i x g) [
        | inl p ↦ inl p
        | inr (inl q) ↦ inr (inl (inr q))
        | inr (inr q) ↦ inr (inr q)
      ];
    }

pub reported_link-Inv :
    (first now now' load : ℕ) (l : Link) → Inv first l → Inv first (reported_link now now' load l)
unfolding reported_link
reported_link-Inv first now now' load l inv =
    let a = on_report-Answers now now' load l.handled l.agent inv.types in
    record {
      valid = inv.valid;
      object = inv.object;
      pending = inv.pending;
      down = inv.down;
      types = a.types;
      mode = subst (IsModeOf first l.commanded) (sym a.kept) inv.mode;
      up = All-append (IsAnswer l.handled) l.up _ inv.up a.sent;
      known = inv.known;
      traced = inv.traced;
    }

-- What an answer does to the entry: nothing, a heartbeat, or an acknowledgement of a handled id.
pub data Answered (handled : List ℕ) (e : Entry) : Entry → Type 0 where
  untouched : Answered handled e e
  beat : (now : ℕ) → Answered handled e (record e { session = update_heartbeat now e.session })
  acked_one :
      (now id : ℕ) (t : MetricsTracker)
      → Among id handled
      → Answered handled e (record e { session = (handle_ack now id e.session t).0 })

found-Answered :
    (handled : List ℕ) (k : ℕ) (e e₁ e' : Entry) (c c' : Controller) (calls : List ControllerCall)
    → Answered handled e e₁
    → find k c.sessions ≡ some e₁
    → ◌≡◌ {A = HandlerResult} (ok (c, [])) (ok (c', calls))
    → find k c'.sessions ≡ some e'
    → Answered handled e e'
found-Answered handled k e e₁ e' c c' calls a f r f' =
    subst (Answered handled e)
      (some-injective _ _ (sym f ∙ ap (λ (x : Controller). find k x.sessions) same_c ∙ f')) a
  where
    same_c : c ≡ c'
    same_c = cc

acked-find :
    (now k id : ℕ) (e : Entry) (c : Controller)
    → find k (acked now k e id c).sessions
      ≡ some (record e { session = (handle_ack now id e.session c.tracker).0 })
unfolding acked
acked-find now k id e c = find-put k k _ c.sessions ∙ rw (eq→== k k refl)

-- A report goes to the store of states.
abbrev stored : ℕ → ℕ → Controller → StatePayload → HandlerResult
stored id stamp c payload =
    let states = update_agent_state id payload stamp c.states in
    ok (record c { states = states }, [])

stored-Answered :
    (handled : List ℕ) (k id stamp : ℕ) (e e' : Entry) (c c' : Controller)
    (calls : List ControllerCall) (x : Result StatePayload)
    → find k c.sessions ≡ some e
    → (x >>= stored id stamp c) ≡ ok (c', calls)
    → find k c'.sessions ≡ some e'
    → Answered handled e e'
stored-Answered handled k id stamp e e' c c' calls (ok payload) f h f' =
    found-Answered handled k e e e' _ c' calls untouched f h f'
stored-Answered handled k id stamp e e' c c' calls (throw what) f h f' = absurd cc
stored-Answered handled k id stamp e e' c c' calls fault f h f' = absurd cc

pub on_registered-Answered :
    (now k : ℕ) (handled : List ℕ) (r : Message) (e e' : Entry) (c c' : Controller)
    (calls : List ControllerCall)
    → IsAnswer handled r
    → find k c.sessions ≡ some e
    → on_registered now r k e c ≡ ok (c', calls)
    → find k c'.sessions ≡ some e'
    → Answered handled e e'
unfolding on_registered
on_registered-Answered now k handled r e e' c c' calls (inl t) f h f' =
    found-Answered handled k e _ e' _ c' calls (beat now)
      (find-put k k _ c.sessions ∙ rw (eq→== k k refl)) (rw t at h) f'
on_registered-Answered now k handled r e e' c c' calls (inr (inl t)) f h f' =
    stored-Answered handled k (get_agent_id e.session) r.header.timestamp e e' c c' calls
      (deserialize_state no_state r.payload) f (rw t at h) f'
on_registered-Answered now k handled r e e' c c' calls (inr (inr (id, w, g, inl (t, p)))) f h f' =
    found-Answered handled k e _ e' _ c' calls (acked_one now id c.tracker g)
      (acked-find now k id e c)
      (rw (t, p, ack-IsPayload.round_trip (record { cmd_id = id }) w) at h) f'
on_registered-Answered now k handled r e e' c c' calls (inr (inr (id, w, g, inr (reason, t, p)))) f
      h f' =
    found-Answered handled k e _ e' _ c' calls (acked_one now id c.tracker g)
      (acked-find now k id e c)
      (rw (t, p, nack-IsPayload.round_trip (record { cmd_id = id; reason = reason }) w) at h) f'
