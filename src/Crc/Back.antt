-- ===== src/Crc/Back.antt =====
-- The rounds of the checksum, backwards: which bits the register had in common.
use native.Mathlib.Nat.{pow-succ', div-div-eq-div-mul, div-one}
use stradvision.Common.{
  ℕ, IsU32, ap, arith, bit_xor, inl, inr, suc, sym, zero, ◌%◌, ◌+◌, ◌-◌, ◌/◌, ◌^◌, ◌∙◌, ◌≡◌, ◌≤◌,
  ◌⊎◌,
}
use stradvision.Common.Bits.{bit_xor-shr}
use stradvision.Crc.{crc_bit, crc_bits}
use stradvision.Crc.Fold.{crc_bit-injective, crc_bit-lt, crc_bit_cases, shifted_xor, xor_cancel}

half : (a j : ℕ) → a / 2 / 2 ^ j ≡ a / 2 ^ suc j
half a j = div-div-eq-div-mul a 2 (2 ^ j) ∙ sym (ap (λ (t : ℕ). a / t) (pow-succ' 2 j))

div_pow : (a j k : ℕ) → a / 2 ^ (j + k) ≡ a / 2 ^ j / 2 ^ k
div_pow a zero k =
    let same : 0 + k ≡ k = omega arith in
    ap (λ (t : ℕ). a / 2 ^ t) same ∙ sym (ap (λ (t : ℕ). t / 2 ^ k) (div-one a))
div_pow a (suc j) k =
    let same : suc j + k ≡ suc (j + k) = omega arith in
    ap (λ (t : ℕ). a / 2 ^ t) same
    ∙ sym (half a (j + k))
    ∙ div_pow (a / 2) j k
    ∙ ap (λ (t : ℕ). t / 2 ^ k) (half a j)

-- What two numbers have in common above one place they have in common above every higher place.
pub higher : (a b j k : ℕ) → j ≤ k → a / 2 ^ j ≡ b / 2 ^ j → a / 2 ^ k ≡ b / 2 ^ k
higher a b j k l e =
    ap (λ (t : ℕ). a / 2 ^ t) split
    ∙ div_pow a j (k - j)
    ∙ ap (λ (t : ℕ). t / 2 ^ (k - j)) e
    ∙ sym (div_pow b j (k - j))
    ∙ sym (ap (λ (t : ℕ). b / 2 ^ t) split)
  where
    split : k ≡ j + (k - j)
    split = omega arith

-- The highest bit after a round is the lowest one before it.
crc_bit-top : (a : ℕ) → IsU32 a → crc_bit a / 2 ^ 31 ≡ a % 2
crc_bit-top a h = ground (arith, crc_bit_cases a, shifted_xor (a / 2))

pub shr-lt : (a j : ℕ) → IsU32 a → IsU32 (a / 2 ^ j)
shr-lt a zero h = omega (arith, div-one a)
shr-lt a (suc j) h = omega (arith, half a j, shr-lt (a / 2) j (omega arith))

-- A flip by the same number can be taken back above every place.
xor_cancel_above :
    (a b m j : ℕ)
    → IsU32 a
    → IsU32 b
    → IsU32 m
    → bit_xor a m / 2 ^ j ≡ bit_xor b m / 2 ^ j
    → a / 2 ^ j ≡ b / 2 ^ j
xor_cancel_above a b m j ha hb hm e =
    xor_cancel (a / 2 ^ j) (b / 2 ^ j) (m / 2 ^ j) (shr-lt a j ha) (shr-lt b j hb) (shr-lt m j hm)
      (sym (bit_xor-shr j a m) ∙ e ∙ bit_xor-shr j b m)

-- Back through one round: what is equal above a place was equal one place higher, and so was the lowest
-- bit.
bit_back :
    (a b j : ℕ)
    → IsU32 a
    → IsU32 b
    → j ≤ 31
    → crc_bit a / 2 ^ j ≡ crc_bit b / 2 ^ j
    → (a % 2 ≡ b % 2) × (a / 2 ^ suc j ≡ b / 2 ^ suc j)
bit_back a b j ha hb l e =
    (low, sym (half a j) ∙ above (crc_bit_cases a) (crc_bit_cases b) ∙ half b j)
  where
    low : a % 2 ≡ b % 2
    low = sym (crc_bit-top a ha) ∙ higher (crc_bit a) (crc_bit b) j 31 l e ∙ crc_bit-top b hb

    Round : ℕ → Type 0
    Round c =
        ((c % 2 ≡ 0) × (crc_bit c ≡ c / 2))
        ⊎ ((c % 2 ≡ 1) × (crc_bit c ≡ bit_xor (c / 2) 0xEDB88320))

    above : Round a → Round b → a / 2 / 2 ^ j ≡ b / 2 / 2 ^ j
    above (inl (p, q)) (inl (p', q')) = rw (q, q') at e
    above (inl (p, q)) (inr (p', q')) = absurd (omega (arith, low))
    above (inr (p, q)) (inl (p', q')) = absurd (omega (arith, low))
    above (inr (p, q)) (inr (p', q')) =
        xor_cancel_above (a / 2) (b / 2) 0xEDB88320 j (omega arith) (omega arith) (omega arith)
          (rw (q, q') at e)

-- Back through `n` rounds.
pub bits_back :
    (n a b j : ℕ)
    → IsU32 a
    → IsU32 b
    → j + n ≤ 32
    → crc_bits n a / 2 ^ j ≡ crc_bits n b / 2 ^ j
    → a / 2 ^ (j + n) ≡ b / 2 ^ (j + n)
unfolding crc_bits
bits_back zero a b j ha hb l e = higher a b j (j + 0) (omega arith) e
bits_back (suc n) a b j ha hb l e =
    higher a b (suc (j + n)) (j + suc n) (omega arith)
      (bit_back a b (j + n) ha hb (omega arith) (
        bits_back n (crc_bit a) (crc_bit b) j (crc_bit-lt a ha) (crc_bit-lt b hb) (omega arith)
          e)).1

-- Forward through one round: what is equal above a place is equal one place lower, when the lowest bits are.
bit_forth :
    (a b n : ℕ)
    → a % 2 ≡ b % 2
    → a / 2 ^ suc n ≡ b / 2 ^ suc n
    → crc_bit a / 2 ^ n ≡ crc_bit b / 2 ^ n
bit_forth a b n low e = forth (crc_bit_cases a) (crc_bit_cases b)
  where
    Round : ℕ → Type 0
    Round c =
        ((c % 2 ≡ 0) × (crc_bit c ≡ c / 2))
        ⊎ ((c % 2 ≡ 1) × (crc_bit c ≡ bit_xor (c / 2) 0xEDB88320))

    halves : a / 2 / 2 ^ n ≡ b / 2 / 2 ^ n
    halves = half a n ∙ e ∙ sym (half b n)

    forth : Round a → Round b → crc_bit a / 2 ^ n ≡ crc_bit b / 2 ^ n
    forth (inl (p, q)) (inl (p', q')) = rw (q, q') halves
    forth (inl (p, q)) (inr (p', q')) = absurd (omega (arith, low))
    forth (inr (p, q)) (inl (p', q')) = absurd (omega (arith, low))
    forth (inr (p, q)) (inr (p', q')) =
        rw (q, q')
          (bit_xor-shr n (a / 2) 0xEDB88320
            ∙ ap (λ (t : ℕ). bit_xor t (0xEDB88320 / 2 ^ n)) halves
            ∙ sym (bit_xor-shr n (b / 2) 0xEDB88320))

-- Two numbers that are equal above `n` places, and after `n` rounds equal in the highest `n` bits, are equal.
pub bits_meet :
    (n a b : ℕ)
    → IsU32 a
    → IsU32 b
    → n ≤ 32
    → a / 2 ^ n ≡ b / 2 ^ n
    → crc_bits n a / 2 ^ (32 - n) ≡ crc_bits n b / 2 ^ (32 - n)
    → a ≡ b
unfolding crc_bits
bits_meet zero a b ha hb l e e' = omega (arith, div-one a, div-one b, e)
bits_meet (suc n) a b ha hb l e e' = crc_bit-injective a b ha hb (
    bits_meet n (crc_bit a) (crc_bit b) (crc_bit-lt a ha) (crc_bit-lt b hb) (omega arith)
      (bit_forth a b n low e)
      (higher (crc_bits n (crc_bit a)) (crc_bits n (crc_bit b)) (32 - suc n) (32 - n) (omega arith)
        e'))
  where
    low : a % 2 ≡ b % 2
    low =
        (bit_back a b 31 ha hb (omega arith) (
          higher (crc_bit a) (crc_bit b) ((32 - suc n) + n) 31 (omega arith) (
            bits_back n (crc_bit a) (crc_bit b) (32 - suc n) (crc_bit-lt a ha) (crc_bit-lt b hb)
              (omega arith) e'))).0
