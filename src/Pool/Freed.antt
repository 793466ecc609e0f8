-- ===== src/Pool/Freed.antt =====
-- What becomes of the pointers that `new` returned.
use stradvision.Common.{
  ℕ, Bool, List, Option, [], ap, arith, false, if◌then◌else◌, length, ne→==, none, refl, some, sym,
  true, ◌++◌, ◌+◌, ◌==◌, ◌∙◌, ◌∷◌, ◌≡◌, ◌≤◌,
}
use stradvision.Message.{Heap}
use stradvision.Pool.{acquire, available, deletes, release, split_back, split_on}
use stradvision.Pool.Ownership.{
  AreAllowed, IsAllowed, PoolEvent, World, acquires, count, count-append, count-without,
  empty_world, holders, is_none, one_if, pool_exclusive, pool_run, pool_step, releases,
  split_back-Splits, take-holders,
}

-- `new` is called when the pool has none available.
abbrev made_by : World → PoolEvent → List ℕ
made_by w (acquires m fresh) = if available w.owner == 0 then fresh ∷ [] else []
made_by w (releases p) = []

unfoldable pub made : World → List PoolEvent → List ℕ
made w [] = []
made w (e ∷ es) = made_by w e ++ made (pool_step w e) es

split_on-is_none : (x : ℕ) (r : Option (List ℕ × ℕ)) → is_none (split_on x r) ≡ false
split_on-is_none x none = refl
split_on-is_none x (some (front, back)) = refl

split_back-is_none : (xs : List ℕ) → is_none (split_back xs) ≡ (length xs == 0)
unfolding split_back
split_back-is_none [] = refl
split_back-is_none (x ∷ xs) =
    split_on-is_none x (split_back xs) ∙ sym (ne→== _ _ (λ e. omega arith))

made_by-count :
    (x fresh : ℕ) (b : Bool)
    → count x (if b then fresh ∷ [] else []) ≡ (if b then one_if (fresh == x) else 0)
made_by-count x fresh true = omega arith
made_by-count x fresh false = refl

step-holders :
    (w : World) (e : PoolEvent) (x : ℕ)
    → IsAllowed w e
    → holders x (pool_step w e) ≡ holders x w + count x (made_by w e)
unfolding pool_step acquire release available
step-holders w (acquires m fresh) x a =
    let h =
      take-holders x fresh m w.owner (split_back w.owner.pool) (split_back-Splits x w.owner.pool) in
    let n = ap (λ b. if b then one_if (fresh == x) else 0) (split_back-is_none w.owner.pool) in
    omega (arith, h, n, made_by-count x fresh (length w.owner.pool == 0))
step-holders w (releases p) x a =
    omega (arith, count-append x w.owner.pool (p ∷ []), count-without x p w.live a)

run-holders :
    (es : List PoolEvent) (w : World) (x : ℕ)
    → AreAllowed w es
    → holders x (pool_run w es) ≡ holders x w + count x (made w es)
unfolding pool_run made
run-holders [] w x a = omega arith
run-holders (e ∷ es) w x a = omega (
  arith,
  run-holders es (pool_step w e) x a.1,
  step-holders w e x a.0,
  count-append x (made_by w e) (made (pool_step w e) es),
)

-- After any acquisitions and releases from the first use on, in which `new` returns a pointer that nobody
-- has and only held pointers are released: each pointer is held or among those that the destructor
-- deletes exactly as often as `new` returned it, which is at most once. So when none is held any more, the
-- destructor deletes each object that was made once, and nothing else.
pub freed_once :
    (heap : Heap) (es : List PoolEvent) (x : ℕ)
    → AreAllowed (empty_world heap) es
    → let w = pool_run (empty_world heap) es in
      (count x (deletes w.owner) + count x w.live ≡ count x (made (empty_world heap) es))
      × (count x (made (empty_world heap) es) ≤ 1)
freed_once heap es x a =
    let same = run-holders es (empty_world heap) x a in
    (omega (arith, same), omega (arith, same, pool_exclusive heap es x a))
