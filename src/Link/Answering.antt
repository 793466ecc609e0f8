-- ===== src/Link/Answering.antt =====
-- The answers that come back over a link, the messages that are lost, and the invariant.
use mathlib.Core.Path.{subst}
use stradvision.Common.{
  ℕ, ==_iff, All, Bool-cases, List, Option, [], inl, inr, none, refl, some, suc, take, zero, ◌==◌,
  ◌∙◌, ◌∷◌, ◌≡◌,
}
use stradvision.Controller.{Entry}
use stradvision.Dict.{find}
use stradvision.Dict.Laws.{find-erase}
use stradvision.Link.{
  IsFresh, Link, Reach, Step, answers, checks, commands, handles, later, loses_down, loses_up,
  reports, start,
}
use stradvision.Link.Checking.{checked_link-Inv}
use stradvision.Link.Handling.{
  Answered, acked_one, beat, handled_link-Inv, on_registered-Answered, reported_link-Inv, untouched,
}
use stradvision.Link.Invariant.{Among, Inv, IsAnswer, WellSent}
use stradvision.Link.Kept.{commanded_link-Inv}
use stradvision.Link.Rounds.{All-erase}
use stradvision.Message.{Message}
use stradvision.Metrics.{MetricsTracker}
use stradvision.Session.{PendingCommand, acknowledge, handle_ack, update_heartbeat}
use stradvision.Session.Checks.{acknowledge-IsValid}

-- Messages on the way that are handled or lost.
pub cut-Inv :
    (first : ℕ) (down up : List Message) (t : MetricsTracker) (l : Link)
    → All (WellSent l.commanded) down
    → All (IsAnswer l.handled) up
    → Inv first l
    → Inv first (record l { tracker = t; down = down; up = up })
cut-Inv first down up t l hd hu inv = record {
  valid = inv.valid;
  object = inv.object;
  pending = inv.pending;
  down = hd;
  types = inv.types;
  mode = inv.mode;
  up = hu;
  known = inv.known;
  traced = inv.traced;
}

beat-Inv :
    (first now : ℕ) (l : Link)
    → Inv first l
    → Inv first
        (record l { entry = record l.entry { session = update_heartbeat now l.entry.session } })
unfolding update_heartbeat
beat-Inv first now l inv = record {
  valid = record { sorted = inv.valid.sorted; bounded = inv.valid.bounded };
  object = inv.object;
  pending = inv.pending;
  down = inv.down;
  types = inv.types;
  mode = inv.mode;
  up = inv.up;
  known = inv.known;
  traced = inv.traced;
}

acked-Inv :
    (first now id : ℕ) (l : Link) (t : MetricsTracker) (found : Option PendingCommand)
    → find id l.entry.session.pending_cmds ≡ found
    → Among id l.handled
    → Inv first l
    → Inv first (record l {
      entry = record l.entry { session = (acknowledge now id l.entry.session t found).0 };
    })
acked-Inv first now id l t none f g inv = inv
acked-Inv first now id l t (some pc) f g inv = record {
  valid = acknowledge-IsValid now id l.entry.session t (some pc) inv.valid;
  object = inv.object;
  pending = All-erase _ id pending inv.pending;
  down = inv.down;
  types = inv.types;
  mode = inv.mode;
  up = inv.up;
  known = inv.known;
  traced = λ i x h. elim (inv.traced i x h) [
    | inl (old, p) ↦ elim (Bool-cases (id == i)) [
      | inl q ↦ inr (inl (subst (λ j. Among j l.handled) ((==_iff id i).0 q) g))
      | inr q ↦ inl (old, find-erase 0 id i pending inv.valid.sorted ∙ rw q p)
    ]
    | inr p ↦ inr p
  ];
}
  where
    pending : List (ℕ × PendingCommand)
    pending = l.entry.session.pending_cmds

pub Answered-Inv :
    (first : ℕ) (l : Link) (e : Entry)
    → Answered l.handled l.entry e
    → Inv first l
    → Inv first (record l { entry = e })
Answered-Inv first l e untouched inv = inv
Answered-Inv first l e (beat now) inv = beat-Inv first now l inv
Answered-Inv first l e (acked_one now id t g) inv =
    unfold handle_ack in acked-Inv first now id l t _ refl g inv

All-take {ℓ κ} : {A : Type ℓ} (P : A → Type κ) (n : ℕ) (xs : List A) → All P xs → All P (take n xs)
All-take P zero xs h = tt
All-take P (suc n) [] h = tt
All-take P (suc n) (x ∷ xs) h = (h.0, All-take P n xs h.1)

pub Step-Inv : (k first : ℕ) (l l' : Link) → Step k l l' → Inv first l → Inv first l'
Step-Inv k first l l' (commands now mode id is_open vm vi h) inv =
    commanded_link-Inv first now mode id is_open l vm vi h inv
Step-Inv k first l l' (checks now is_open e h) inv = checked_link-Inv first now is_open e l h inv
Step-Inv k first l l' (handles now m rest h) inv = handled_link-Inv first now m rest l h inv
Step-Inv k first l l' (reports now now' load) inv = reported_link-Inv first now now' load l inv
Step-Inv k first l l' (answers now r rest e c c' calls h f fine f') inv =
    let up : All (IsAnswer l.handled) (r ∷ rest) = subst (All (IsAnswer l.handled)) h inv.up in
    let a = on_registered-Answered now k l.handled r l.entry e c c' calls up.0 f fine f' in
    cut-Inv first l.down rest c'.tracker (record l { entry = e }) inv.down up.1
      (Answered-Inv first l e a inv)
Step-Inv k first l l' (loses_down n) inv =
    cut-Inv first _ l.up l.tracker l (All-take (WellSent l.commanded) n l.down inv.down) inv.up inv
Step-Inv k first l l' (loses_up n) inv =
    cut-Inv first l.down _ l.tracker l inv.down (All-take (IsAnswer l.handled) n l.up inv.up) inv

pub IsFresh-Inv : (l : Link) → IsFresh l → Inv l.agent.current_mode l
IsFresh-Inv l f = record {
  valid = record { sorted = rw f.no_pending tt; bounded = rw f.no_pending tt };
  object = f.has_command;
  pending = rw f.no_pending tt;
  down = rw f.no_down tt;
  types = record {
    acks_by = f.has_ack;
    nacks_by = f.has_nack;
    beats_by = f.has_beat;
    states_by = f.has_state;
  };
  mode = inl refl;
  up = rw f.no_up tt;
  known = λ i h. absurd (rw f.none_handled at h);
  traced = λ i x h. absurd (rw f.no_commands at h);
}

pub Reach-Inv : (k : ℕ) (l l' : Link) → IsFresh l → Reach k l l' → Inv l.agent.current_mode l'
Reach-Inv k l l' f start = IsFresh-Inv l f
Reach-Inv k l l' f (later {l = m} r s) =
    Step-Inv k l.agent.current_mode m l' s (Reach-Inv k l m f r)
