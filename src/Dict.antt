-- ===== src/Dict.antt =====
-- `std::map<uint32_t, V>` and `std::unordered_map<uint32_t, V>`: pairs in ascending order of the keys.
-- The order of an unordered map is unspecified; this is one that it may have.
pub mod Laws
use stradvision.Common.{ℕ, List, Option, [], if◌then◌else◌, ltb, none, some, suc, ◌==◌, ◌∷◌, ◌≤◌}

module _ {ℓ} {V : Type ℓ} where
  -- `find`
  unfoldable pub find : ℕ → List (ℕ × V) → Option V
  find k [] = none
  find k ((j, v) ∷ m) = if j == k then some v else find k m

  -- `m[k] = v`
  unfoldable pub put : ℕ → V → List (ℕ × V) → List (ℕ × V)
  put k v [] = (k, v) ∷ []
  put k v ((j, w) ∷ m) =
      if ltb k j then (k, v) ∷ (j, w) ∷ m else (if j == k then (k, v) ∷ m else (j, w) ∷ put k v m)

  -- `erase(k)`
  unfoldable pub erase : ℕ → List (ℕ × V) → List (ℕ × V)
  erase k [] = []
  erase k ((j, v) ∷ m) = if j == k then m else (j, v) ∷ erase k m

  -- The keys are distinct, in ascending order and at least `n`.
  abbrev pub Sorted : ℕ → List (ℕ × V) → Type 0
  Sorted n [] = Unit {0}
  Sorted n ((j, v) ∷ m) = (n ≤ j) × Sorted (suc j) m

-- What `m[k]` reads of a map to numbers.
abbrev pub or_zero : Option ℕ → ℕ
or_zero none = 0
or_zero (some n) = n
