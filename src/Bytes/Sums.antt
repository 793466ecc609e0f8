-- ===== src/Bytes/Sums.antt =====
-- What the readers and writers of ByteSerializer.hpp do, in plain arithmetic.
use stradvision.Bytes.{
  read_u16_be, read_u32_be, read_u64_be, write_u16_be, write_u32_be, write_u64_be,
}
use stradvision.Common.{
  All, IsByte, IsU16, IsU32, List, [], ap, append_assoc, arith, bit_and, bit_or, length, refl, some,
  u32, ℕ, ◌%◌, ◌*◌, ◌++◌, ◌+◌, ◌/◌, ◌<<<◌, ◌<◌, ◌^◌, ◌∙◌, ◌∷◌, ◌≡◌, ◌≤◌,
}
use stradvision.Common.Bits.{bit_and_mask, bit_or_fields}

abbrev pub bytes_u16 : ℕ → List ℕ
bytes_u16 v = v / 2 ^ 8 % 2 ^ 8 ∷ v % 2 ^ 8 ∷ []

abbrev pub bytes_u32 : ℕ → List ℕ
bytes_u32 v = v / 2 ^ 24 % 2 ^ 8 ∷ v / 2 ^ 16 % 2 ^ 8 ∷ v / 2 ^ 8 % 2 ^ 8 ∷ v % 2 ^ 8 ∷ []

abbrev pub sum_u16 : ℕ → ℕ → ℕ
sum_u16 b₀ b₁ = b₀ * 2 ^ 8 + b₁

abbrev pub sum_u32 : ℕ → ℕ → ℕ → ℕ → ℕ
sum_u32 b₀ b₁ b₂ b₃ = b₀ * 2 ^ 24 + b₁ * 2 ^ 16 + b₂ * 2 ^ 8 + b₃

pub low_byte : (v : ℕ) → bit_and v 0xFF ≡ v % 2 ^ 8
low_byte v = bit_and_mask 8 v

pub write_u16-bytes : (buf : List ℕ) (v : ℕ) → write_u16_be buf v ≡ buf ++ bytes_u16 v
unfolding write_u16_be
write_u16-bytes buf v = simp (low_byte, append_assoc)

pub write_u32-bytes : (buf : List ℕ) (v : ℕ) → write_u32_be buf v ≡ buf ++ bytes_u32 v
unfolding write_u32_be
write_u32-bytes buf v = simp (low_byte, append_assoc)

halves : (v : ℕ) → u32 (v % 2 ^ 32) ≡ v % 2 ^ 32
halves v = omega arith

pub write_u64-bytes :
    (buf : List ℕ) (v : ℕ)
    → write_u64_be buf v ≡ buf ++ (bytes_u32 (u32 (v / 2 ^ 32)) ++ bytes_u32 (v % 2 ^ 32))
unfolding write_u64_be
write_u64-bytes buf v =
    write_u32-bytes (write_u32_be buf (u32 (v / 2 ^ 32))) (u32 (bit_and v 0xFFFFFFFF))
    ∙ rw (bit_and_mask 32 v, write_u32-bytes buf (u32 (v / 2 ^ 32)), append_assoc) (rw (halves v))

-- `x | r` is a sum when `x` is a multiple of `2 ^ k` and `r` fits `k` bits.
or_at : (k q x r : ℕ) → x ≡ q * 2 ^ k → r < 2 ^ k → bit_or x r ≡ x + r
or_at k q x r e h = ap (λ (t : ℕ). bit_or t r) e ∙ bit_or_fields k q r h ∙ omega arith

pub read_u16-sum :
    (b₀ b₁ : ℕ) (rest : List ℕ)
    → IsByte b₀
    → IsByte b₁
    → read_u16_be (b₀ ∷ b₁ ∷ rest) ≡ some (sum_u16 b₀ b₁)
unfolding read_u16_be
read_u16-sum b₀ b₁ rest h₀ h₁ = ap some (omega (arith, bit_or_fields 8 b₀ b₁ h₁))

pub read_u32-sum :
    (b₀ b₁ b₂ b₃ : ℕ) (rest : List ℕ)
    → IsByte b₀
    → IsByte b₁
    → IsByte b₂
    → IsByte b₃
    → read_u32_be (b₀ ∷ b₁ ∷ b₂ ∷ b₃ ∷ rest) ≡ some (sum_u32 b₀ b₁ b₂ b₃)
unfolding read_u32_be
read_u32-sum b₀ b₁ b₂ b₃ rest h₀ h₁ h₂ h₃ = ap some three
  where
    one : bit_or (u32 (b₀ <<< 24)) (u32 (b₁ <<< 16)) ≡ b₀ * 2 ^ 24 + b₁ * 2 ^ 16
    one = or_at 24 b₀ _ _ (omega arith) (omega arith) ∙ omega arith

    two :
        bit_or (bit_or (u32 (b₀ <<< 24)) (u32 (b₁ <<< 16))) (u32 (b₂ <<< 8))
        ≡ b₀ * 2 ^ 24 + b₁ * 2 ^ 16 + b₂ * 2 ^ 8
    two = or_at 16 (b₀ * 2 ^ 8 + b₁) _ _ (omega (arith, one)) (omega arith) ∙ omega (arith, one)

    three :
        bit_or (bit_or (bit_or (u32 (b₀ <<< 24)) (u32 (b₁ <<< 16))) (u32 (b₂ <<< 8))) b₃
        ≡ sum_u32 b₀ b₁ b₂ b₃
    three =
        or_at 8 (b₀ * 2 ^ 16 + b₁ * 2 ^ 8 + b₂) _ _ (omega (arith, two)) (omega arith)
        ∙ omega (arith, two)

-- A reader takes back what its writer put down, whatever follows.
pub read_u16-bytes : (v : ℕ) (rest : List ℕ) → IsU16 v → read_u16_be (bytes_u16 v ++ rest) ≡ some v
read_u16-bytes v rest h = read_u16-sum _ _ rest (omega arith) (omega arith) ∙ ap some (omega arith)

pub read_u32-bytes : (v : ℕ) (rest : List ℕ) → IsU32 v → read_u32_be (bytes_u32 v ++ rest) ≡ some v
read_u32-bytes v rest h =
    read_u32-sum _ _ _ _ rest (omega arith) (omega arith) (omega arith) (omega arith)
    ∙ ap some (omega arith)

pub read_u64-halves :
    (hi lo : ℕ) (rest : List ℕ)
    → IsU32 hi
    → IsU32 lo
    → read_u64_be (bytes_u32 hi ++ (bytes_u32 lo ++ rest)) ≡ some (hi * 2 ^ 32 + lo)
unfolding read_u64_be
read_u64-halves hi lo rest h l =
    rw (read_u32-bytes hi (bytes_u32 lo ++ rest) h, read_u32-bytes lo rest l)
      (ap some (or_at 32 hi _ lo (omega arith) l ∙ omega arith))

pub bytes_u32-sum :
    (b₀ b₁ b₂ b₃ : ℕ)
    → IsByte b₀
    → IsByte b₁
    → IsByte b₂
    → IsByte b₃
    → bytes_u32 (sum_u32 b₀ b₁ b₂ b₃) ≡ b₀ ∷ b₁ ∷ b₂ ∷ b₃ ∷ []
bytes_u32-sum b₀ b₁ b₂ b₃ h₀ h₁ h₂ h₃ = ground arith

pub bytes_u32-IsByte : (v : ℕ) → All IsByte (bytes_u32 v)
bytes_u32-IsByte v = omega arith

pub bytes_u16-sum : (b₀ b₁ : ℕ) → IsByte b₀ → IsByte b₁ → bytes_u16 (sum_u16 b₀ b₁) ≡ b₀ ∷ b₁ ∷ []
bytes_u16-sum b₀ b₁ h₀ h₁ = ground arith

pub read_u32-append :
    (p q : List ℕ) {v : ℕ} → read_u32_be p ≡ some v → read_u32_be (p ++ q) ≡ some v
unfolding read_u32_be
read_u32-append [] q e = cc
read_u32-append (_ ∷ []) q e = cc
read_u32-append (_ ∷ _ ∷ []) q e = cc
read_u32-append (_ ∷ _ ∷ _ ∷ []) q e = cc
read_u32-append (b₀ ∷ b₁ ∷ b₂ ∷ b₃ ∷ p) q e = e

pub read_u32_returns : (p : List ℕ) → 4 ≤ length p → (v : ℕ) × (read_u32_be p ≡ some v)
unfolding read_u32_be
read_u32_returns [] h = absurd (omega arith)
read_u32_returns (_ ∷ []) h = absurd (omega arith)
read_u32_returns (_ ∷ _ ∷ []) h = absurd (omega arith)
read_u32_returns (_ ∷ _ ∷ _ ∷ []) h = absurd (omega arith)
read_u32_returns (b₀ ∷ b₁ ∷ b₂ ∷ b₃ ∷ p) h = (_, refl)
