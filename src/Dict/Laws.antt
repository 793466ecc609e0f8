-- ===== src/Dict/Laws.antt =====
-- The laws of the maps: what `find` answers after a write, and that the order of the keys is kept.
use mathlib.Core.Option.{some-injective}
use stradvision.Common.{
  ℕ, ==_iff, Bool-cases, List, [], arith, eq→==, if◌then◌else◌, inl, inr, none, refl, some, suc,
  sym, ◌<◌, ◌==◌, ◌∙◌, ◌∷◌, ◌≡◌, ◌≢◌, ◌≤◌, ◌⊎◌,
}
use stradvision.Dict.{Sorted, erase, find, put}

module _ {ℓ} {V : Type ℓ} where
  pub Sorted-mono : (m n : ℕ) (d : List (ℕ × V)) → m ≤ n → Sorted n d → Sorted m d
  Sorted-mono m n [] h s = tt
  Sorted-mono m n ((j, v) ∷ d) h s = (omega arith, s.1)

  pub put-Sorted : (n k : ℕ) (v : V) (d : List (ℕ × V)) → n ≤ k → Sorted n d → Sorted n (put k v d)
  unfolding put
  put-Sorted n k v [] h s = (h, tt)
  put-Sorted n k v ((j, w) ∷ d) h s = ground (arith, put-Sorted (suc j) k v d)

  pub erase-Sorted : (n k : ℕ) (d : List (ℕ × V)) → Sorted n d → Sorted n (erase k d)
  unfolding erase
  erase-Sorted n k [] s = tt
  erase-Sorted n k ((j, w) ∷ d) s =
      ground (arith, erase-Sorted (suc j) k d, Sorted-mono n (suc j) d)

  pub find_below : (n k : ℕ) (d : List (ℕ × V)) → Sorted n d → k < n → find k d ≡ none
  unfolding find
  find_below n k [] s h = refl
  find_below n k ((j, w) ∷ d) s h = ground (arith, find_below (suc j) k d)

  pub find-put :
      (k i : ℕ) (v : V) (d : List (ℕ × V))
      → find i (put k v d) ≡ (if k == i then some v else find i d)
  unfolding find put
  find-put k i v [] = refl
  find-put k i v ((j, w) ∷ d) = ground (arith, find-put k i v d)

  pub find-erase :
      (n k i : ℕ) (d : List (ℕ × V))
      → Sorted n d
      → find i (erase k d) ≡ (if k == i then none else find i d)
  unfolding find erase
  find-erase n k i [] s = ground arith
  find-erase n k i ((j, w) ∷ d) s = ground (arith, find-erase (suc j) k i d, find_below (suc j) i d)

  -- What is found after a write was written, or was there.
  pub find-put_cases :
      (k i : ℕ) (v w : V) (d : List (ℕ × V))
      → find i (put k v d) ≡ some w
      → ((k ≡ i) × (v ≡ w)) ⊎ (find i d ≡ some w)
  find-put_cases k i v w d h = elim (Bool-cases (k == i)) [
    | inl e ↦ inl ((==_iff k i).0 e, some-injective _ _ (sym (find-put k i v d ∙ rw e) ∙ h))
    | inr e ↦ inr (sym (find-put k i v d ∙ rw e) ∙ h)
  ]

  pub find-erase_cases :
      (n k i : ℕ) (w : V) (d : List (ℕ × V))
      → Sorted n d
      → find i (erase k d) ≡ some w
      → (k ≢ i) × (find i d ≡ some w)
  find-erase_cases n k i w d s h = elim (Bool-cases (k == i)) [
    | inl e ↦ let no : none ≡ some w = sym (find-erase n k i d s ∙ rw e) ∙ h in absurd (cc)
    | inr e ↦ ((λ p. cc (eq→== k i p)), sym (find-erase n k i d s ∙ rw e) ∙ h)
  ]
