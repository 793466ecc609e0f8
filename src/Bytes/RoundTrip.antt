-- ===== src/Bytes/RoundTrip.antt =====
-- Readers after writers and writers after readers, for each width of ByteSerializer.hpp.
use stradvision.Common.{
  ℕ, ◌≡◌, ◌∙◌, List, [], ◌∷◌, ◌++◌, some, arith, ap, IsByte, IsU16, IsU32, IsU64,
}
use stradvision.Bytes.{
  write_u16_be, read_u16_be, write_u32_be, read_u32_be, write_u64_be, read_u64_be, write_float_be,
  read_float_be,
}
use stradvision.Bytes.Sums.{
  write_u16-bytes, write_u32-bytes, write_u64-bytes, read_u16-bytes, read_u32-bytes, read_u32-sum,
  read_u64-halves, bytes_u32-sum,
}

-- Every unsigned integer that the writers append to an empty buffer is read back by the reader of the
-- same width, whatever bytes follow it: 16 bits, 32 bits, 64 bits, and the pattern of a float.
pub read-write :
    (v w x f : ℕ) (rest : List ℕ)
    → IsU16 v
    → IsU32 w
    → IsU64 x
    → IsU32 f
    → (read_u16_be (write_u16_be [] v ++ rest) ≡ some v)
      × (read_u32_be (write_u32_be [] w ++ rest) ≡ some w)
      × (read_u64_be (write_u64_be [] x ++ rest) ≡ some x)
      × (read_float_be (write_float_be [] f ++ rest) ≡ some f)
unfolding write_float_be read_float_be
read-write v w x f rest hv hw hx hf = (
  rw (write_u16-bytes [] v) (read_u16-bytes v rest hv),
  rw (write_u32-bytes [] w) (read_u32-bytes w rest hw),
  rw (write_u64-bytes [] x)
      (read_u64-halves _ _ rest (omega arith) (omega arith) ∙ ap some (omega arith)),
  rw (write_u32-bytes [] f, read_u32-bytes f rest hf),
)

-- Any four bytes are read as some 32-bit integer, and writing that integer gives the four bytes back:
-- the encoding is a bijection.
pub write-read :
    (b₀ b₁ b₂ b₃ : ℕ) (rest : List ℕ)
    → IsByte b₀
    → IsByte b₁
    → IsByte b₂
    → IsByte b₃
    → (v : ℕ) × IsU32 v
      × (read_u32_be (b₀ ∷ b₁ ∷ b₂ ∷ b₃ ∷ rest) ≡ some v)
      × (write_u32_be [] v ≡ b₀ ∷ b₁ ∷ b₂ ∷ b₃ ∷ [])
write-read b₀ b₁ b₂ b₃ rest h₀ h₁ h₂ h₃ = (
  _,
  omega arith,
  read_u32-sum b₀ b₁ b₂ b₃ rest h₀ h₁ h₂ h₃,
  write_u32-bytes [] _ ∙ bytes_u32-sum b₀ b₁ b₂ b₃ h₀ h₁ h₂ h₃,
)
