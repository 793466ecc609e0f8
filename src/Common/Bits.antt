-- ===== src/Common/Bits.antt =====
-- `&`, `|` and `^` as arithmetic: one equation for the lowest digit, then laws for every width.
use Prim.Native.Nat.{ℕ, zero, suc, ◌+◌, ◌-◌, ◌*◌, ◌/◌, ◌%◌, ◌^◌, ◌≤◌, ◌<◌, min, max}
use Prim.Native.Nat.{bit_and, bit_or, bit_xor, digits, bitwise, differ}
use Prim.Native.Nat.{bit_and-bitwise, bit_or-bitwise, bit_xor-bitwise}
use mathlib.Core.Path.{◌≡◌, refl, sym, ap, ◌∙◌}
use mathlib.Core.Logic.{◌⊎◌, inl, inr}
use native.Mathlib.Nat.{pow-suc, pow-succ', div-div-eq-div-mul, div-one}
use native.Mathlib.Nat.{one-le-pow, div-add-mod', mod-lt}
use native.Mathlib.Omega.{arith}

-- The meaning of a native operation is a recursion on digits whose fuel is the left operand.
module _ (z : ℕ → ℕ) (f : ℕ → ℕ → ℕ) where
  digits-bitwise : (k n a b : ℕ) → n ≤ k → a ≤ n → digits z f n a b ≡ bitwise z f a b
  digits-bitwise k zero zero b l h = refl
  digits-bitwise k (suc n) zero b l h = refl
  digits-bitwise k zero (suc a) b l h = absurd (omega arith)
  digits-bitwise zero (suc n) (suc a) b l h = absurd (omega arith)
  digits-bitwise (suc k) (suc n) (suc a) b l h =
      let left = digits-bitwise k n (suc a / 2) (b / 2) (omega arith) (omega arith) in
      let right = digits-bitwise k a (suc a / 2) (b / 2) (omega arith) (omega arith) in
      omega (arith, left, right)

  -- The lowest digit apart, once the case of an exhausted left operand agrees.
  lowest_digit :
      ((y : ℕ) → z y ≡ z (y / 2) * 2 + f 0 (y % 2))
      → (a b : ℕ) → bitwise z f a b ≡ bitwise z f (a / 2) (b / 2) * 2 + f (a % 2) (b % 2)
  lowest_digit base zero b = base b
  lowest_digit base (suc a) b =
      omega (arith, digits-bitwise a a (suc a / 2) (b / 2) (omega arith) (omega arith))

bit_or_step : (a b : ℕ) → bit_or a b ≡ bit_or (a / 2) (b / 2) * 2 + max (a % 2) (b % 2)
bit_or_step a b = simp bit_or-bitwise (lowest_digit (λ y. y) max (λ y. omega arith) a b)

bit_and_step : (a b : ℕ) → bit_and a b ≡ bit_and (a / 2) (b / 2) * 2 + min (a % 2) (b % 2)
bit_and_step a b = simp bit_and-bitwise (lowest_digit (λ y. 0) min (λ y. omega arith) a b)

parity : (n : ℕ) → (n % 2 ≡ 0) ⊎ (n % 2 ≡ 1)
parity n = ground arith

xor_digit : (a b : ℕ) → differ (a % 2) (b % 2) ≡ (a + b) % 2
xor_digit a b = elim (parity a) [
  | inl p ↦ elim (parity b) [ inl q ↦ rw (p, q) (omega arith) | inr q ↦ rw (p, q) (omega arith) ]
  | inr p ↦ elim (parity b) [ inl q ↦ rw (p, q) (omega arith) | inr q ↦ rw (p, q) (omega arith) ]
]

differ_zero : (y : ℕ) → y ≡ y / 2 * 2 + differ 0 (y % 2)
differ_zero y = elim (parity y) [ inl q ↦ rw q (omega arith) | inr q ↦ rw q (omega arith) ]

pub bit_xor_step : (a b : ℕ) → bit_xor a b ≡ bit_xor (a / 2) (b / 2) * 2 + (a + b) % 2
bit_xor_step a b =
    simp bit_xor-bitwise
      (omega (arith, lowest_digit (λ y. y) differ differ_zero a b, xor_digit a b))

half_xor : (a b : ℕ) → bit_xor a b / 2 ≡ bit_xor (a / 2) (b / 2)
half_xor a b = omega (arith, bit_xor_step a b)

bit_xor-zero : (b : ℕ) → bit_xor 0 b ≡ b
bit_xor-zero b = bit_xor-bitwise 0 b

pub bit_xor-lt : (k a b : ℕ) → a < 2 ^ k → b < 2 ^ k → bit_xor a b < 2 ^ k
bit_xor-lt zero zero zero ha hb = omega (arith, bit_xor-zero 0)
bit_xor-lt zero (suc a) _ ha hb = absurd (omega arith)
bit_xor-lt zero zero (suc b) ha hb = absurd (omega arith)
bit_xor-lt (suc k) a b ha hb =
    let half =
      bit_xor-lt k (a / 2) (b / 2) (omega (arith, pow-suc 2 k)) (omega (arith, pow-suc 2 k)) in
    omega (arith, pow-suc 2 k, bit_xor_step a b)

-- Flipping the same digits twice gives the number back.
pub bit_xor-bit_xor_right : (k a b : ℕ) → a < 2 ^ k → b < 2 ^ k → bit_xor (bit_xor a b) b ≡ a
bit_xor-bit_xor_right zero zero zero ha hb = refl
bit_xor-bit_xor_right zero (suc a) _ ha hb = absurd (omega arith)
bit_xor-bit_xor_right zero zero (suc b) ha hb = absurd (omega arith)
bit_xor-bit_xor_right (suc k) a b ha hb = omega (
  arith,
  bit_xor_step (bit_xor a b) b,
  bit_xor_step a b,
  ap (λ (t : ℕ). bit_xor t (b / 2)) (half_xor a b),
  bit_xor-bit_xor_right k (a / 2) (b / 2) (omega (arith, pow-suc 2 k)) (omega (arith, pow-suc 2 k)),
)

pub bit_xor-bit_xor_left : (k a b : ℕ) → a < 2 ^ k → b < 2 ^ k → bit_xor a (bit_xor a b) ≡ b
bit_xor-bit_xor_left zero zero zero ha hb = refl
bit_xor-bit_xor_left zero (suc a) _ ha hb = absurd (omega arith)
bit_xor-bit_xor_left zero zero (suc b) ha hb = absurd (omega arith)
bit_xor-bit_xor_left (suc k) a b ha hb = omega (
  arith,
  bit_xor_step a (bit_xor a b),
  bit_xor_step a b,
  ap (bit_xor (a / 2)) (half_xor a b),
  bit_xor-bit_xor_left k (a / 2) (b / 2) (omega (arith, pow-suc 2 k)) (omega (arith, pow-suc 2 k)),
)

-- The digits from place `k` up do not depend on those below.
pub bit_xor-shr : (k a b : ℕ) → bit_xor a b / 2 ^ k ≡ bit_xor (a / 2 ^ k) (b / 2 ^ k)
bit_xor-shr zero a b =
    omega (arith, ap (λ (t : ℕ). bit_xor t b) (div-one a), ap (bit_xor (a / 1)) (div-one b))
bit_xor-shr (suc k) a b =
    rw
      (
        pow-succ' 2 k,
        ← div-div-eq-div-mul (bit_xor a b) 2 (2 ^ k),
        ← div-div-eq-div-mul a 2 (2 ^ k),
        ← div-div-eq-div-mul b 2 (2 ^ k),
        half_xor a b,
      )
      (bit_xor-shr k (a / 2) (b / 2))

-- Two functions with the same lowest digit are equal when halving the argument halves both.
same_digits :
    (g h d : ℕ → ℕ)
    → g 0 ≡ h 0
    → ((t : ℕ) → g t ≡ g (t / 2) * 2 + d t)
    → ((t : ℕ) → h t ≡ h (t / 2) * 2 + d t)
    → (size a : ℕ) → a ≤ size
    → g a ≡ h a
same_digits g h d base eg eh size zero l = base
same_digits g h d base eg eh zero (suc a) l = absurd (omega arith)
same_digits g h d base eg eh (suc size) (suc a) l =
    let inner = same_digits g h d base eg eh size (suc a / 2) (omega arith) in
    omega (arith, eg (suc a), eh (suc a), inner)

bit_or-nil : (a : ℕ) → bit_or a 0 ≡ a
bit_or-nil a =
    same_digits (λ t. bit_or t 0) (λ t. t) (λ t. t % 2) refl (λ t. omega (arith, bit_or_step t 0))
      (λ t. omega arith) a a (omega arith)

bit_and-nil : (a : ℕ) → bit_and a 0 ≡ 0
bit_and-nil a =
    same_digits (λ t. bit_and t 0) (λ t. 0) (λ t. 0) refl (λ t. omega (arith, bit_and_step t 0))
      (λ t. refl) a a (omega arith)

shl_double : (n k : ℕ) → n * 2 ^ suc k ≡ n * 2 ^ k * 2
shl_double n k = omega (arith, ap (λ (t : ℕ). n * t) (pow-suc 2 k))

-- `(q << k) | r` is a sum when `r` fits `k` bits.
pub bit_or_fields : (k q r : ℕ) → r < 2 ^ k → bit_or (q * 2 ^ k) r ≡ q * 2 ^ k + r
bit_or_fields zero q zero fits = omega (arith, bit_or-nil (q * 2 ^ 0))
bit_or_fields zero q (suc r) fits = absurd (omega arith)
bit_or_fields (suc k) q r fits = omega (
  arith,
  bit_or_step (q * 2 ^ suc k) r,
  shl_double q k,
  ap (λ (t : ℕ). bit_or t (r / 2)) halved,
  bit_or_fields k q (r / 2) (omega (arith, pow-suc 2 k)),
)
  where
    halved : q * 2 ^ suc k / 2 ≡ q * 2 ^ k
    halved = omega (arith, shl_double q k)

bit_and_fields : (k q r : ℕ) → r < 2 ^ k → bit_and (q * 2 ^ k + r) (2 ^ k - 1) ≡ r
bit_and_fields zero q r fits = omega (arith, bit_and-nil (q * 2 ^ 0 + r))
bit_and_fields (suc k) q r fits = omega (
  arith,
  bit_and_step (q * 2 ^ suc k + r) (2 ^ suc k - 1),
  shl_double q k,
  pow-suc 2 k,
  one-le-pow k 2 (omega arith),
  ap (λ (t : ℕ). bit_and t ((2 ^ suc k - 1) / 2)) halved,
  ap (bit_and (q * 2 ^ k + r / 2)) mask,
  bit_and_fields k q (r / 2) (omega (arith, pow-suc 2 k)),
)
  where
    halved : (q * 2 ^ suc k + r) / 2 ≡ q * 2 ^ k + r / 2
    halved = omega (arith, shl_double q k)

    mask : (2 ^ suc k - 1) / 2 ≡ 2 ^ k - 1
    mask = omega (arith, pow-suc 2 k, one-le-pow k 2 (omega arith))

-- A mask of `k` low bits is the remainder by `2 ^ k`.
pub bit_and_mask : (k a : ℕ) → bit_and a (2 ^ k - 1) ≡ a % 2 ^ k
bit_and_mask k a =
    ap (λ (t : ℕ). bit_and t (2 ^ k - 1)) (sym (div-add-mod' a (2 ^ k)))
    ∙ bit_and_fields k (a / 2 ^ k) (a % 2 ^ k) (mod-lt a (one-le-pow k 2 (omega arith)))
