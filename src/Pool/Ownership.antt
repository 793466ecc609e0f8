-- ===== src/Pool/Ownership.antt =====
-- Who holds a pointer: the pool, or a `shared_ptr`, never both and never two.
use stradvision.Common.{
  ℕ, ==_iff, Bool, Bool-cases, List, Option, [], ap, arith, eq→==, false, if◌then◌else◌, inl, inr,
  ne→==, none, refl, some, sym, true, ◌++◌, ◌+◌, ◌==◌, ◌∙◌, ◌∷◌, ◌≡◌, ◌≢◌, ◌≤◌,
}
use stradvision.Message.{Heap, Message, store}
use stradvision.Pool.{
  MessagePool, acquire, get_instance, release, split_back, split_on, take_pointer,
}

abbrev pub one_if : Bool → ℕ
one_if b = if b then 1 else 0

abbrev pub count : ℕ → List ℕ → ℕ
count x [] = 0
count x (y ∷ ys) = one_if (y == x) + count x ys

abbrev pub is_none {ℓ} : {A : Type ℓ} → Option A → Bool
is_none none = true
is_none (some a) = false

-- The pool with the pointers that `shared_ptr`s hold.
pub record World : Type 0 where
  pub owner : MessagePool
  pub live : List ℕ

pub data PoolEvent : Type 0 where
  acquires : Message → ℕ → PoolEvent
  releases : ℕ → PoolEvent

abbrev pub without : ℕ → List ℕ → List ℕ
without p [] = []
without p (q ∷ qs) = if q == p then qs else q ∷ without p qs

unfoldable pub pool_step : World → PoolEvent → World
pool_step w (acquires m fresh) =
    let (s, p) = acquire m fresh w.owner in record { owner = s; live = p ∷ w.live }
pool_step w (releases p) = record { owner = release p w.owner; live = without p w.live }

abbrev pub holders : ℕ → World → ℕ
holders x w = count x w.owner.pool + count x w.live

-- `new` returns a pointer that nobody has, and a deleter runs for a pointer that is held.
abbrev pub IsAllowed : World → PoolEvent → Type 0
IsAllowed w (acquires m fresh) = holders fresh w ≡ 0
IsAllowed w (releases p) = 1 ≤ count p w.live

abbrev pub AreAllowed : World → List PoolEvent → Type 0
AreAllowed w [] = Unit {0}
AreAllowed w (e ∷ es) = IsAllowed w e × AreAllowed (pool_step w e) es

unfoldable pub pool_run : World → List PoolEvent → World
pool_run w [] = w
pool_run w (e ∷ es) = pool_run (pool_step w e) es

pub count-append : (x : ℕ) (xs ys : List ℕ) → count x (xs ++ ys) ≡ count x xs + count x ys
count-append x [] ys = omega arith
count-append x (y ∷ xs) ys = omega (arith, count-append x xs ys)

pub count-without :
    (x p : ℕ) (qs : List ℕ) → 1 ≤ count p qs → count x (without p qs) + one_if (p == x) ≡ count x qs
count-without x p [] h = omega arith
count-without x p (q ∷ qs) h = ground (arith, count-without x p qs)

-- The pointers of a vector are those that `pop_back` leaves and the last one.
abbrev Splits : ℕ → List ℕ → Option (List ℕ × ℕ) → Type 0
Splits x xs none = xs ≡ []
Splits x xs (some (front, back)) = count x xs ≡ count x front + one_if (back == x)

split_on-Splits :
    (x y : ℕ) (ys : List ℕ) (r : Option (List ℕ × ℕ))
    → Splits x ys r
    → Splits x (y ∷ ys) (split_on y r)
split_on-Splits x y ys none e = rw e (omega arith)
split_on-Splits x y ys (some (front, back)) e = omega (arith, e)

pub split_back-Splits : (x : ℕ) (xs : List ℕ) → Splits x xs (split_back xs)
unfolding split_back
split_back-Splits x [] = refl
split_back-Splits x (y ∷ ys) = split_on-Splits x y ys (split_back ys) (split_back-Splits x ys)

pub take-holders :
    (x fresh : ℕ) (m : Message) (s : MessagePool) (r : Option (List ℕ × ℕ))
    → Splits x s.pool r
    → let (s', p) = take_pointer m fresh s r in
      count x s'.pool + one_if (p == x)
      ≡ count x s.pool + (if is_none r then one_if (fresh == x) else 0)
take-holders x fresh m s none e = rw e (omega arith)
take-holders x fresh m s (some (front, back)) e = omega (arith, e)

-- Of every pointer there is at most one holder.
abbrev pub IsExclusive : World → Type 0
IsExclusive w = (x : ℕ) → holders x w ≤ 1

room :
    (w : World) (fresh x : ℕ) (b : Bool)
    → IsExclusive w
    → holders fresh w ≡ 0
    → holders x w + (if b then one_if (fresh == x) else 0) ≤ 1
room w fresh x b v a = elim (Bool-cases (fresh == x)) [
  | inl e ↦
      let z : holders x w ≡ 0 = ap (λ t. holders t w) (sym ((==_iff fresh x).0 e)) ∙ a in
      rw e (ground (arith, z))
  | inr e ↦ rw e (ground (arith, v x))
]

pool_step-IsExclusive :
    (w : World) (e : PoolEvent) → IsExclusive w → IsAllowed w e → IsExclusive (pool_step w e)
unfolding pool_step acquire release
pool_step-IsExclusive w (acquires m fresh) v a x =
    let h =
      take-holders x fresh m w.owner (split_back w.owner.pool) (split_back-Splits x w.owner.pool) in
    omega (arith, h, room w fresh x (is_none (split_back w.owner.pool)) v a)
pool_step-IsExclusive w (releases p) v a x =
    omega (arith, v x, count-append x w.owner.pool (p ∷ []), count-without x p w.live a)

pool_run-IsExclusive :
    (es : List PoolEvent) (w : World)
    → IsExclusive w
    → AreAllowed w es
    → IsExclusive (pool_run w es)
unfolding pool_run
pool_run-IsExclusive [] w v a = v
pool_run-IsExclusive (e ∷ es) w v a =
    pool_run-IsExclusive es (pool_step w e) (pool_step-IsExclusive w e v a.0) a.1

-- The program's start.
abbrev pub empty_world : Heap → World
empty_world heap = record { owner = get_instance heap; live = [] }

empty_world-IsExclusive : (heap : Heap) → IsExclusive (empty_world heap)
empty_world-IsExclusive heap x = omega arith

take-heap :
    (m : Message) (fresh : ℕ) (s : MessagePool) (r : Option (List ℕ × ℕ))
    → let (s', p) = take_pointer m fresh s r in s'.heap ≡ store s.heap p m
take-heap m fresh s none = refl
take-heap m fresh s (some (front, back)) = refl

-- After any acquisitions and releases in which `new` returns a pointer that nobody has and only held
-- pointers are released: each pointer is free in the pool or held, at most once in all.
pub pool_exclusive :
    (heap : Heap) (es : List PoolEvent) (x : ℕ)
    → AreAllowed (empty_world heap) es
    → holders x (pool_run (empty_world heap) es) ≤ 1
pool_exclusive heap es x a =
    pool_run-IsExclusive es (empty_world heap) (empty_world-IsExclusive heap) a x

-- After such a history, an acquisition returns a pointer to the new message that is none of those held,
-- and the message of every held pointer stays as it was.
pub acquire_apart :
    (heap : Heap) (es : List PoolEvent) (m : Message) (fresh q : ℕ)
    → AreAllowed (empty_world heap) es
    → IsAllowed (pool_run (empty_world heap) es) (acquires m fresh)
    → 1 ≤ count q (pool_run (empty_world heap) es).live
    → let w = pool_run (empty_world heap) es in
      let (s', p) = acquire m fresh w.owner in
      (p ≢ q) × (s'.heap p ≡ m) × (s'.heap q ≡ w.owner.heap q)
unfolding acquire
acquire_apart heap es m fresh q a allowed held = (
  apart,
  ap (λ (h : Heap). h p) stored ∙ rw (eq→== p p refl),
  ap (λ (h : Heap). h q) stored ∙ rw (ne→== p q apart),
)
  where
    w : World
    w = pool_run (empty_world heap) es

    p : ℕ
    p = (acquire m fresh w.owner).1

    exclusive : IsExclusive w
    exclusive = pool_run-IsExclusive es (empty_world heap) (empty_world-IsExclusive heap) a

    once : holders q (pool_step w (acquires m fresh)) ≤ 1
    once = pool_step-IsExclusive w (acquires m fresh) exclusive allowed q

    stored : (acquire m fresh w.owner).0.heap ≡ store w.owner.heap p m
    stored = take-heap m fresh w.owner (split_back w.owner.pool)

    twice : one_if (p == q) + count q w.live ≤ 1
    twice = unfold pool_step in omega (arith, once)

    apart : p ≢ q
    apart e = omega (arith, twice, ap one_if (eq→== p q e))
