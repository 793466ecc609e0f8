-- ===== src/Crc/Fold.antt =====
-- The checksum of a run of bytes as a fold, its range, and its steps as functions of the register.
use stradvision.Common.{
  ℕ, All, IsByte, IsU32, List, [], ap, append-nil, arith, bit_xor, length, refl, some, suc, sym,
  zero, ◌%◌, ◌++◌, ◌-◌, ◌/◌, ◌<◌, ◌^◌, ◌∙◌, ◌∷◌, ◌≡◌, ◌≤◌, ◌⊎◌,
}
use stradvision.Common.Bits.{bit_and_mask, bit_xor-bit_xor_right, bit_xor-lt, bit_xor-shr}
use stradvision.Crc.{compute_crc32, crc_bit, crc_bits, crc_byte, crc_loop}

unfoldable pub crc_of : List ℕ → ℕ → ℕ
crc_of [] crc = crc
crc_of (b ∷ bs) crc = crc_of bs (crc_byte crc b)

pub crc_loop-crc_of :
    (bs rest : List ℕ) (n crc : ℕ)
    → length bs ≡ n
    → crc_loop n (bs ++ rest) crc ≡ some (crc_of bs crc)
unfolding crc_loop crc_of
crc_loop-crc_of [] rest zero crc h = refl
crc_loop-crc_of [] rest (suc n) crc h = absurd (omega arith)
crc_loop-crc_of (b ∷ bs) rest zero crc h = absurd (omega arith)
crc_loop-crc_of (b ∷ bs) rest (suc n) crc h =
    crc_loop-crc_of bs rest n (crc_byte crc b) (omega arith)

abbrev pub crc32 : List ℕ → ℕ
crc32 bs = 2 ^ 32 - 1 - crc_of bs 0xFFFFFFFF

pub compute_crc32-crc32 :
    (bs rest : List ℕ) (n : ℕ) → length bs ≡ n → compute_crc32 (bs ++ rest) n ≡ some (crc32 bs)
unfolding compute_crc32
compute_crc32-crc32 bs rest n h = rw (crc_loop-crc_of bs rest n 0xFFFFFFFF h)

-- The polynomial sets the top bit, which a shifted word has clear.
pub shifted_xor :
    (c : ℕ) → c < 2 ^ 31 → (2 ^ 31 ≤ bit_xor c 0xEDB88320) × (bit_xor c 0xEDB88320 < 2 ^ 32)
shifted_xor c h = (
  omega (arith, bit_xor-shr 31 c 0xEDB88320, top),
  bit_xor-lt 32 c 0xEDB88320 (omega arith) (omega arith),
)
  where
    top : bit_xor (c / 2 ^ 31) 1 ≡ 1
    top = let low : c / 2 ^ 31 ≡ 0 = omega arith in ap (λ (t : ℕ). bit_xor t 1) low

pub crc_bit_cases :
    (c : ℕ)
    → ((c % 2 ≡ 0) × (crc_bit c ≡ c / 2)) ⊎ ((c % 2 ≡ 1) × (crc_bit c ≡ bit_xor (c / 2) 0xEDB88320))
unfolding crc_bit
crc_bit_cases c = ground (arith, bit_and_mask 1 c)

pub crc_bit-lt : (c : ℕ) → IsU32 c → IsU32 (crc_bit c)
crc_bit-lt c h = ground (arith, crc_bit_cases c, shifted_xor (c / 2))

pub xor_cancel : (a b m : ℕ) → IsU32 a → IsU32 b → IsU32 m → bit_xor a m ≡ bit_xor b m → a ≡ b
xor_cancel a b m ha hb hm e =
    sym (bit_xor-bit_xor_right 32 a m ha hm)
    ∙ ap (λ (t : ℕ). bit_xor t m) e
    ∙ bit_xor-bit_xor_right 32 b m hb hm

pub crc_bit-injective : (a b : ℕ) → IsU32 a → IsU32 b → crc_bit a ≡ crc_bit b → a ≡ b
crc_bit-injective a b ha hb e = ground (
  arith,
  crc_bit_cases a,
  crc_bit_cases b,
  shifted_xor (a / 2),
  shifted_xor (b / 2),
  xor_cancel (a / 2) (b / 2) 0xEDB88320,
)

pub crc_bits-lt : (n c : ℕ) → IsU32 c → IsU32 (crc_bits n c)
unfolding crc_bits
crc_bits-lt zero c h = h
crc_bits-lt (suc n) c h = crc_bits-lt n (crc_bit c) (crc_bit-lt c h)

crc_bits-injective : (n a b : ℕ) → IsU32 a → IsU32 b → crc_bits n a ≡ crc_bits n b → a ≡ b
unfolding crc_bits
crc_bits-injective zero a b ha hb e = e
crc_bits-injective (suc n) a b ha hb e =
    crc_bit-injective a b ha hb
      (crc_bits-injective n (crc_bit a) (crc_bit b) (crc_bit-lt a ha) (crc_bit-lt b hb) e)

pub crc_byte-lt : (c b : ℕ) → IsU32 c → IsByte b → IsU32 (crc_byte c b)
unfolding crc_byte
crc_byte-lt c b hc hb = crc_bits-lt 8 _ (bit_xor-lt 32 c b hc (omega arith))

-- From one byte on, two checksums that differ stay different.
pub crc_byte-injective_left :
    (a c b : ℕ) → IsU32 a → IsU32 c → IsByte b → crc_byte a b ≡ crc_byte c b → a ≡ c
unfolding crc_byte
crc_byte-injective_left a c b ha hc hb e = xor_cancel a c b ha hc (omega arith) (
    crc_bits-injective 8 _ _ (bit_xor-lt 32 a b ha (omega arith))
      (bit_xor-lt 32 c b hc (omega arith)) e)

pub crc_of-lt : (bs : List ℕ) (c : ℕ) → All IsByte bs → IsU32 c → IsU32 (crc_of bs c)
unfolding crc_of
crc_of-lt [] c h hc = hc
crc_of-lt (b ∷ bs) c h hc = crc_of-lt bs (crc_byte c b) h.1 (crc_byte-lt c b hc h.0)

pub crc_of-injective :
    (bs : List ℕ) (a c : ℕ) → All IsByte bs → IsU32 a → IsU32 c → crc_of bs a ≡ crc_of bs c → a ≡ c
unfolding crc_of
crc_of-injective [] a c h ha hc e = e
crc_of-injective (b ∷ bs) a c h ha hc e = crc_byte-injective_left a c b ha hc h.0 (
    crc_of-injective bs (crc_byte a b) (crc_byte c b) h.1 (crc_byte-lt a b ha h.0)
      (crc_byte-lt c b hc h.0) e)

pub crc_of-append : (xs ys : List ℕ) (c : ℕ) → crc_of (xs ++ ys) c ≡ crc_of ys (crc_of xs c)
unfolding crc_of
crc_of-append [] ys c = refl
crc_of-append (x ∷ xs) ys c = crc_of-append xs ys (crc_byte c x)

pub compute_crc32_whole : (bs : List ℕ) → compute_crc32 bs (length bs) ≡ some (crc32 bs)
compute_crc32_whole bs = rw append-nil at (compute_crc32-crc32 bs [] (length bs) refl)

pub crc32-lt : (bs : List ℕ) → IsU32 (crc32 bs)
crc32-lt bs = omega arith
