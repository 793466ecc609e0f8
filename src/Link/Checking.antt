-- ===== src/Link/Checking.antt =====
-- The step of a link in which the controller checks the timeouts, and the invariant.
use mathlib.Core.Path.{subst}
use mathlib.Core.Option.{none-ne-some, some-injective}
use stradvision.Session.Checks
use stradvision.Comm.Stream.{sealed}
use stradvision.Common.{
  ℕ, All-append, Bool, Bool-cases, ap, false, inl, inr, none, some, sym, ◌++◌, ◌∙◌, ◌≡◌,
}
use stradvision.Controller.{Entry, healthy_entry, on_links}
use stradvision.Controller.Health.{check_entry}
use stradvision.Link.{Link, checked_link, gone, sent_down}
use stradvision.Link.Invariant.{
  All-map, Among-append, Inv, PointsTo, WellSent, WellSent-sealed, append-Among,
}
use stradvision.Link.Rounds.{check_all-All, check_all-Sends, check_all-traced}
use stradvision.Message.{Message}
use stradvision.Metrics.{MetricsTracker}
use stradvision.Pool.{MessagePool}
use stradvision.Session.{PendingCommand, Session, check_all, check_command_timeouts}
use stradvision.Session.Checks.{apply, apply-IsValid}

-- The session loop keeps a session only if it is healthy.
check_entry_sick :
    (now : ℕ) (is_open : ℕ → Bool) (e : Entry) (t : MetricsTracker) (messages : MessagePool)
    → healthy_entry now is_open e ≡ false
    → (check_entry now is_open e t messages).stays ≡ none
unfolding check_entry
check_entry_sick now is_open e t messages h = rw h

abbrev aged_link : ℕ → Link → Link
aged_link now l =
    let s = l.entry.session in
    let r = check_all now s l.messages.heap s.pending_cmds l.tracker in
    record l {
      entry = record l.entry { session = record s { pending_cmds = r.pending } };
      tracker = r.tracker;
      down = l.down ++ sent_down (on_links l.entry.conn r.calls);
      given_up = gone now s.pending_cmds ++ l.given_up;
    }

checked_link_lem :
    (now : ℕ) (is_open : ℕ → Bool) (e : Entry) (l : Link)
    → (check_entry now is_open l.entry l.tracker l.messages).stays ≡ some e
    → checked_link now is_open e l ≡ aged_link now l
unfolding checked_link check_entry check_command_timeouts
checked_link_lem now is_open e l h = elim (Bool-cases (healthy_entry now is_open l.entry)) [
  | inl q ↦
      let same = some-injective _ _ (rw q at h) in
      rw q (ap (λ (x : Entry). record (aged_link now l) { entry = x }) (sym same))
  | inr q ↦ absurd (
      none-ne-some _ (
        sym (check_entry_sick now is_open l.entry l.tracker l.messages q)
        ∙ (unfold check_entry check_command_timeouts in h)))
]

pub checked_link-Inv :
    (first now : ℕ) (is_open : ℕ → Bool) (e : Entry) (l : Link)
    → (check_entry now is_open l.entry l.tracker l.messages).stays ≡ some e
    → Inv first l
    → Inv first (checked_link now is_open e l)
checked_link-Inv first now is_open e l h inv =
    subst (Inv first) (sym (checked_link_lem now is_open e l h)) aged
  where
    s : Session
    s = l.entry.session

    P : ℕ × PendingCommand → Type 0
    P = PointsTo l.commanded s.msg_set_mode l.messages.heap

    W : Message → Type 0
    W = WellSent l.commanded

    seal : (x : ℕ × PendingCommand) → P x → W (sealed (l.messages.heap x.1.msg))
    seal x (same, w) =
        subst (λ p. W (sealed (l.messages.heap p))) (sym same) (WellSent-sealed l.commanded _ w)

    aged : Inv first (aged_link now l)
    aged = record {
      valid =
          unfold apply check_command_timeouts in
          apply-IsValid l.messages.heap l.tracker s (Checks.checks now) inv.valid;
      object = inv.object;
      pending =
          check_all-All P now s l.messages.heap s.pending_cmds l.tracker (λ k n last pc h. h)
            inv.pending;
      down = All-append W l.down _ inv.down (
          check_all-Sends now l.entry.conn s l.messages.heap W s.pending_cmds l.tracker (
            All-map P (λ x. W (sealed (l.messages.heap x.1.msg))) s.pending_cmds seal inv.pending));
      types = inv.types;
      mode = inv.mode;
      up = inv.up;
      known = inv.known;
      traced = λ i x h. elim (inv.traced i x h) [
        | inl (pc, f) ↦ elim (check_all-traced now i s l.messages.heap pc l.tracker inv.valid f) [
          | inl kept ↦ inl kept
          | inr lost ↦ inr (inr (append-Among i (gone now s.pending_cmds) l.given_up lost))
        ]
        | inr (inl g) ↦ inr (inl g)
        | inr (inr g) ↦ inr (inr (Among-append i (gone now s.pending_cmds) l.given_up g))
      ];
    }
