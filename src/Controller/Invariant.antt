-- ===== src/Controller/Invariant.antt =====
-- The invariant of the sessions between two handlers, and the two writes to their map.
use mathlib.Core.Path.{subst}
use stradvision.Session.Checks
use stradvision.Common.{ℕ, ap, arith, inl, inr, some, sym, true, ◌<◌, ◌∙◌, ◌≡◌, ◌≤◌}
use stradvision.Controller.{Entry, Sessions}
use stradvision.Controller.Lookup.{AreDistinct}
use stradvision.Dict.{Sorted, erase, find, put}
use stradvision.Dict.Laws.{erase-Sorted, find-erase_cases, find-put_cases, put-Sorted}
use stradvision.Session.Checks.{IsValid}

-- A registered session object is older than the next one, has the agent's id under which it is
-- registered, keeps its connection, and has its pending commands in order.
pub record IsRegistered (created k : ℕ) (e : Entry) : Type 0 where
  pub numbered : e.sid < created
  pub named : e.session.id ≡ k
  pub linked : e.session.has_conn ≡ true
  pub commands : Checks.IsValid e.session

-- The sessions are in the order of the agents' ids, each id once, and are different objects.
pub record AreValid (created : ℕ) (d : Sessions) : Type 0 where
  pub sorted : Sorted 0 d
  pub distinct : AreDistinct d
  pub entries : (k : ℕ) (e : Entry) → find k d ≡ some e → IsRegistered created k e

pub put-AreValid :
    (n m k : ℕ) (e : Entry) (d : Sessions)
    → AreValid n d
    → n ≤ m
    → IsRegistered m k e
    → ((j : ℕ) (w : Entry) → find j d ≡ some w → w.sid ≡ e.sid → j ≡ k)
    → AreValid m (put k e d)
put-AreValid n m k e d v l r alone = record {
  sorted = put-Sorted 0 k e d (omega arith) v.sorted;
  distinct = λ i j w w' f g same. elim (find-put_cases k i e w d f) [
    | inl (p, q) ↦ elim (find-put_cases k j e w' d g) [
      | inl (p', q') ↦ sym p ∙ p'
      | inr g' ↦ sym p ∙ sym (alone j w' g' (sym same ∙ ap (λ (x : Entry). x.sid) (sym q)))
    ]
    | inr f' ↦ elim (find-put_cases k j e w' d g) [
      | inl (p', q') ↦ alone i w f' (same ∙ ap (λ (x : Entry). x.sid) (sym q')) ∙ p'
      | inr g' ↦ v.distinct i j w w' f' g' same
    ]
  ];
  entries = λ i w f. elim (find-put_cases k i e w d f) [
    | inl (p, q) ↦ subst (λ x. IsRegistered m x w) p (subst (IsRegistered m k) q r)
    | inr f' ↦ later (v.entries i w f')
  ];
}
  where
    later : {i : ℕ} {w : Entry} → IsRegistered n i w → IsRegistered m i w
    later {i} {w} x = record {
      numbered = omega (arith, x.numbered);
      named = x.named;
      linked = x.linked;
      commands = x.commands;
    }

pub erase-AreValid : (n k : ℕ) (d : Sessions) → AreValid n d → AreValid n (erase k d)
erase-AreValid n k d v = record {
  sorted = erase-Sorted 0 k d v.sorted;
  distinct = λ i j w w' f g same.
      v.distinct i j w w' (find-erase_cases 0 k i w d v.sorted f).1
        (find-erase_cases 0 k j w' d v.sorted g).1 same;
  entries = λ i w f. v.entries i w (find-erase_cases 0 k i w d v.sorted f).1;
}
