-- ===== src/Link/Kept.antt =====
-- The step of a link in which the controller makes a mode command, and the invariant.
use mathlib.Core.Path.{subst}
use stradvision.Comm.Stream.{sealed}
use stradvision.Common.{
  ℕ, All-append, Bool, Bool-cases, IsU32, List, [], ap, arith, eq→==, inl, inr, refl, sym, true,
  ◌++◌, ◌==◌, ◌∙◌, ◌∷◌, ◌≡◌,
}
use stradvision.Controller.{ControllerCall, Entry, healthy_entry}
use stradvision.Controller.Cycle.{pending_of}
use stradvision.Controller.Making.{command_entry_lem, commanded_entry, made_message}
use stradvision.Dict.{put}
use stradvision.Dict.Laws.{find-put, put-Sorted}
use stradvision.Link.{Link, commanded_link, sent_down}
use stradvision.Link.Invariant.{
  All-map, Inv, IsTraced, PointsTo, WellSent, WellSent-later, WellSent-sealed,
}
use stradvision.Link.Rounds.{All-put}
use stradvision.Message.{Heap, Message, store}
use stradvision.Session.{PendingCommand, Session}
use stradvision.Session.Checks.{put-Bounded}

-- A command stays where it was when another one is tracked.
put-IsTraced :
    (i id : ℕ) (pc : PendingCommand) (d : List (ℕ × PendingCommand)) (handled given_up : List ℕ)
    → IsTraced i d handled given_up
    → IsTraced i (put id pc d) handled given_up
put-IsTraced i id pc d handled given_up (inl (old, h)) = inl (elim (Bool-cases (id == i)) [
  | inl q ↦ (pc, find-put id i pc d ∙ rw q)
  | inr q ↦ (old, find-put id i pc d ∙ (rw q h))
])
put-IsTraced i id pc d handled given_up (inr h) = inr h

-- A link after a mode command for its healthy session.
abbrev made_link : ℕ → ℕ → ℕ → Link → Link
made_link now mode id l =
    let p = l.entry.session.msg_set_mode in
    let m = made_message mode id (l.messages.heap p) in
    record l {
      entry = commanded_entry now mode id l.entry;
      messages = record l.messages { heap = store l.messages.heap p m };
      down = l.down ++ (sealed m ∷ []);
      commanded = (id, mode) ∷ l.commanded;
    }

commanded_link_lem :
    (now mode id : ℕ) (is_open : ℕ → Bool) (l : Link)
    → healthy_entry now is_open l.entry ≡ true
    → commanded_link now is_open mode id l ≡ made_link now mode id l
unfolding commanded_link
commanded_link_lem now mode id is_open l h =
    ap
      (λ (r : Entry × List ControllerCall × Heap). record l {
        entry = r.0;
        messages = record l.messages { heap = r.2 };
        down = l.down ++ sent_down r.1;
        commanded = (id, mode) ∷ l.commanded;
      })
      (command_entry_lem now mode id is_open l.entry l.messages.heap h)

made_link-Inv :
    (first now mode id : ℕ) (l : Link)
    → IsU32 mode
    → IsU32 id
    → Inv first l
    → Inv first (made_link now mode id l)
made_link-Inv first now mode id l vm vi inv = record {
  valid = record {
    sorted = put-Sorted 0 id (pending_of now l.entry) s.pending_cmds (omega arith) inv.valid.sorted;
    bounded =
        put-Bounded id (pending_of now l.entry) s.pending_cmds (omega arith) inv.valid.bounded;
  };
  object = ap (λ (x : Message). x.header.type) here ∙ inv.object;
  pending =
      All-put (PointsTo made p heap') id (pending_of now l.entry) s.pending_cmds (refl, sent_here)
        (All-map (PointsTo l.commanded p l.messages.heap) (PointsTo made p heap') s.pending_cmds
          (λ x h. (h.0, sent_here)) inv.pending);
  down =
      All-append (WellSent made) l.down (sealed m ∷ [])
        (All-map (WellSent l.commanded) (WellSent made) l.down
          (λ x w. WellSent-later l.commanded (id, mode) x w) inv.down)
        (WellSent-sealed made m sent, tt);
  types = inv.types;
  mode = elim inv.mode [ inl e ↦ inl e | inr (i, h) ↦ inr (i, inr h) ];
  up = inv.up;
  known = λ i h. let (x, h') = inv.known i h in (x, inr h');
  traced = λ i x h. elim h [
    | inl e ↦ inl (
      pending_of now l.entry,
      find-put id i (pending_of now l.entry) s.pending_cmds
          ∙ (rw (eq→== id i (ap (λ (y : ℕ × ℕ). y.0) e))),
    )
    | inr h' ↦
        put-IsTraced i id (pending_of now l.entry) s.pending_cmds l.handled l.given_up
          (inv.traced i x h')
  ];
}
  where
    s : Session
    s = l.entry.session

    p : ℕ
    p = s.msg_set_mode

    m : Message
    m = made_message mode id (l.messages.heap p)

    heap' : Heap
    heap' = store l.messages.heap p m

    made : List (ℕ × ℕ)
    made = (id, mode) ∷ l.commanded

    here : heap' p ≡ m
    here = rw (eq→== p p refl)

    sent : WellSent made m
    sent = record {
      is_command = inv.object;
      id_fits = vi;
      mode = mode;
      mode_fits = vm;
      was_made = inl refl;
      says = refl;
    }

    sent_here : WellSent made (heap' p)
    sent_here = subst (WellSent made) (sym here) sent

pub commanded_link-Inv :
    (first now mode id : ℕ) (is_open : ℕ → Bool) (l : Link)
    → IsU32 mode
    → IsU32 id
    → healthy_entry now is_open l.entry ≡ true
    → Inv first l
    → Inv first (commanded_link now is_open mode id l)
commanded_link-Inv first now mode id is_open l vm vi h inv =
    subst (Inv first) (sym (commanded_link_lem now mode id is_open l h))
      (made_link-Inv first now mode id l vm vi inv)
