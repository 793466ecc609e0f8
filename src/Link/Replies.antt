-- ===== src/Link/Replies.antt =====
-- A message and a report, for the agent of a link.
use stradvision.Agent
use stradvision.Agent.{
  Agent, AgentCall, duplicate_reason, get_next_header_id, on_message, on_report, send_ack,
  send_nack, send_unchecked, set_mode, start_reporting,
}
use stradvision.Common.{
  ℕ, All, All-append, Bool-cases, IsU32, List, [], ap, append_assoc, eq→==, if_both, inl, inr, pos,
  refl, sym, ◌++◌, ◌==◌, ◌∙◌, ◌∷◌, ◌≡◌, ◌⊎◌,
}
use stradvision.Link.{replied, sent_up}
use stradvision.Link.Invariant.{Among, HasTypes, IsAnswer, WellSent}
use stradvision.Message.{Message}
use stradvision.Payload.RoundTrip.{set_mode-IsPayload}

-- What a call of the agent leaves, when it may answer for the messages `handled`.
pub record Answers (handled : List ℕ) (mode : ℕ) (r : Agent × List AgentCall) : Type 0 where
  pub types : HasTypes r.0
  pub sent : All (IsAnswer handled) (sent_up r.1)
  pub kept : r.0.current_mode ≡ mode

send_ack-Answers :
    (now id : ℕ) (handled : List ℕ) (a : Agent)
    → HasTypes a
    → IsU32 id
    → Among id handled
    → Answers handled a.current_mode (send_ack now id a)
unfolding send_ack Agent.get_next_header_id
send_ack-Answers now id handled a t w h = record {
  types = record {
    acks_by = t.acks_by;
    nacks_by = t.nacks_by;
    beats_by = t.beats_by;
    states_by = t.states_by;
  };
  sent =
      if_both (λ calls. All (IsAnswer handled) (sent_up calls)) a.has_link
        (inr (inr (id, w, h, inl (t.acks_by, refl))), tt) tt;
  kept = refl;
}

send_nack-Answers :
    (now id : ℕ) (handled reason : List ℕ) (a : Agent)
    → HasTypes a
    → IsU32 id
    → Among id handled
    → Answers handled a.current_mode (send_nack now id reason a)
unfolding send_nack Agent.get_next_header_id
send_nack-Answers now id handled reason a t w h = record {
  types = record {
    acks_by = t.acks_by;
    nacks_by = t.nacks_by;
    beats_by = t.beats_by;
    states_by = t.states_by;
  };
  sent =
      if_both (λ calls. All (IsAnswer handled) (sent_up calls)) a.has_link
        (inr (inr (id, w, h, inr (reason, t.nacks_by, refl))), tt) tt;
  kept = refl;
}

-- A command that was made: the agent keeps its mode, or takes the command's.
pub on_message-Answers :
    (now : ℕ) (m : Message) (made : List (ℕ × ℕ)) (handled : List ℕ) (a : Agent)
    → (w : WellSent made m) → HasTypes a
    → let r = Agent.on_message now m a in
      let handled' = m.header.header_id ∷ handled in
      Answers handled' a.current_mode r ⊎ Answers handled' w.mode r
unfolding Agent.on_message set_mode
on_message-Answers now m made handled a w t =
    let id = m.header.header_id in
    rw (eq→== _ _ w.is_command) (elim (Bool-cases (id == a.cmd_set_mode_header_id)) [
      | inl d ↦
          rw d (
            inl (send_nack-Answers now id (id ∷ handled) duplicate_reason a t w.id_fits (inl refl)))
      | inr d ↦
          rw (d, w.says, set_mode-IsPayload.round_trip (record { mode = w.mode }) w.mode_fits)
            (inr (
              send_ack-Answers now id (id ∷ handled)
                (record a {
                  cmd_set_mode_header_id = id;
                  current_mode = w.mode;
                  last_cmd_rc = pos 0;
                })
                (record {
                  acks_by = t.acks_by;
                  nacks_by = t.nacks_by;
                  beats_by = t.beats_by;
                  states_by = t.states_by;
                })
                w.id_fits (inl refl)))
    ])

sent_up-append : (xs ys : List AgentCall) → sent_up (xs ++ ys) ≡ sent_up xs ++ sent_up ys
sent_up-append [] ys = refl
sent_up-append (x ∷ xs) ys =
    ap (◌++◌ (replied x)) (sent_up-append xs ys)
    ∙ sym (append_assoc (replied x) (sent_up xs) (sent_up ys))

Replies-append :
    (handled : List ℕ) (xs ys : List AgentCall)
    → All (IsAnswer handled) (sent_up xs)
    → All (IsAnswer handled) (sent_up ys)
    → All (IsAnswer handled) (sent_up (xs ++ ys))
Replies-append handled xs ys hx hy =
    rw (sent_up-append xs ys) (All-append (IsAnswer handled) (sent_up xs) (sent_up ys) hx hy)

pub on_report-Answers :
    (now now' load : ℕ) (handled : List ℕ) (a : Agent)
    → HasTypes a
    → Answers handled a.current_mode (on_report now now' load a)
unfolding on_report Agent.get_next_header_id start_reporting
on_report-Answers now now' load handled a t = record {
  types = record {
    acks_by = t.acks_by;
    nacks_by = t.nacks_by;
    beats_by = t.beats_by;
    states_by = t.states_by;
  };
  sent =
      Replies-append handled (send_unchecked a hb ++ send_unchecked a st) (start_reporting a)
        (Replies-append handled (send_unchecked a hb) (send_unchecked a st)
          (if_both P a.has_link (inl t.beats_by, tt) tt)
          (if_both P a.has_link (inr (inl t.states_by), tt) tt))
        (if_both P a.is_stopping tt tt);
  kept = refl;
}
  where
    P : List AgentCall → Type 0
    P calls = All (IsAnswer handled) (sent_up calls)

    hb : Message
    hb = (on_report now now' load a).0.msg_hb

    st : Message
    st = (on_report now now' load a).0.msg_state
