-- ===== src/Controller/Lookup.antt =====
-- `weak_ptr::lock` against the map of the sessions.
use mathlib.Core.Bool.{true≢false}
use stradvision.Common.{
  ℕ, ==_iff, Bool-cases, Option, Option-cases, [], ap, arith, eq→==, inl, inr, ne→==, none, some,
  suc, sym, ◌==◌, ◌∙◌, ◌∷◌, ◌≡◌, ◌≢◌, ◌≤◌,
}
use stradvision.Controller.{Entry, Sessions, lock}
use stradvision.Dict.{Sorted, find}

-- What locks is registered, under the number that was asked for.
pub lock_sound :
    (n sid k : ℕ) (e : Entry) (d : Sessions)
    → Sorted n d
    → lock sid d ≡ some (k, e)
    → (find k d ≡ some e) × (e.sid ≡ sid) × (n ≤ k)
unfolding lock find
lock_sound n sid k e [] s h = cc
lock_sound n sid k e ((j, w) ∷ d) s h = elim (Bool-cases (w.sid == sid)) [
  | inl q ↦
      let h' : ◌≡◌ {A = Option (ℕ × Entry)} (some (j, w)) (some (k, e)) = rw q at h in
      let jk : j ≡ k = cc in
      let we : w ≡ e = cc in
      (
        rw (eq→== j k jk) (ap some we),
        ap (λ (x : Entry). x.sid) (sym we) ∙ (==_iff _ _).0 q,
        omega arith,
      )
  | inr q ↦
      let (f, g, l) = lock_sound (suc j) sid k e d s.1 (rw q at h) in
      (rw (ne→== j k (λ p. omega arith)) f, g, omega arith)
]

-- A registered session object locks.
pub lock_complete :
    (k : ℕ) (e : Entry) (d : Sessions)
    → find k d ≡ some e
    → (k' : ℕ) × (e' : Entry) × (lock e.sid d ≡ some (k', e'))
unfolding lock find
lock_complete k e [] h = cc
lock_complete k e ((j, w) ∷ d) h = elim (Bool-cases (w.sid == e.sid)) [
  | inl q ↦ (j, w, rw q)
  | inr q ↦ elim (Bool-cases (j == k)) [
    | inl r ↦
        let h' : some w ≡ some e = rw r at h in
        let we : w ≡ e = cc in
        let same = eq→== w.sid e.sid (ap (λ (x : Entry). x.sid) we) in
        absurd (true≢false (sym same ∙ q))
    | inr r ↦ let (k', e', l) = lock_complete k e d (rw r at h) in (k', e', rw q l)
  ]
]

-- Different registered objects have different numbers.
abbrev pub AreDistinct : Sessions → Type 0
AreDistinct d =
    (i j : ℕ) (e e' : Entry) → find i d ≡ some e → find j d ≡ some e' → e.sid ≡ e'.sid → i ≡ j

-- A registered session object locks as itself.
pub lock-find :
    (k : ℕ) (e : Entry) (d : Sessions)
    → Sorted 0 d
    → AreDistinct d
    → find k d ≡ some e
    → lock e.sid d ≡ some (k, e)
lock-find k e d s distinct h =
    let (k', e', l) = lock_complete k e d h in
    let (f, same, _) = lock_sound 0 e.sid k' e' d s l in
    let kk : k' ≡ k = distinct k' k e' e f h same in
    let ee : some e' ≡ some e = sym f ∙ ap (λ i. find i d) kk ∙ h in l ∙ ap some (cc)

-- The number of an object that is not registered locks nothing.
pub lock-none :
    (sid n : ℕ) (d : Sessions)
    → Sorted n d
    → ((k : ℕ) (e : Entry) → find k d ≡ some e → e.sid ≢ sid)
    → lock sid d ≡ none
lock-none sid n d s absent = elim (Option-cases (lock sid d)) [
  | inl e ↦ e
  | inr ((k, w), e) ↦ let (f, same, _) = lock_sound n sid k w d s e in absurd (absent k w f same)
]
