-- ===== src/Bytes.antt =====
-- include/core/utils/ByteSerializer.hpp. A `std::vector<uint8_t>` is a list of numbers below 256; a
-- pointer into one is the list from there on, and `none` is a read behind the vector's end.
pub mod Sums
pub mod RoundTrip
use stradvision.Common.{
  ℕ, ◌^◌, List, [], ◌∷◌, ◌++◌, Option, none, some, bit_and, bit_or, u16, u32, u64, drop, ◌<<<◌,
  ◌>>>◌,
}

infixl 5 ◌>>=◌
abbrev pub ◌>>=◌ {ℓ κ} : {A : Type ℓ} {B : Type κ} → Option A → (A → Option B) → Option B
none >>= f = none
some a >>= f = f a

abbrev pub push_back : List ℕ → ℕ → List ℕ
push_back buf b = buf ++ (b ∷ [])

unfoldable pub write_u16_be : List ℕ → ℕ → List ℕ
write_u16_be buf val =
    let buf₁ = push_back buf (bit_and (val >>> 8) 0xFF) in push_back buf₁ (bit_and val 0xFF)

unfoldable pub read_u16_be : List ℕ → Option ℕ
read_u16_be (b₀ ∷ b₁ ∷ _) = some (u16 (bit_or (b₀ <<< 8) b₁))
read_u16_be _ = none

unfoldable pub write_u32_be : List ℕ → ℕ → List ℕ
write_u32_be buf val =
    let buf₁ = push_back buf (bit_and (val >>> 24) 0xFF) in
    let buf₂ = push_back buf₁ (bit_and (val >>> 16) 0xFF) in
    let buf₃ = push_back buf₂ (bit_and (val >>> 8) 0xFF) in push_back buf₃ (bit_and val 0xFF)

unfoldable pub read_u32_be : List ℕ → Option ℕ
read_u32_be (b₀ ∷ b₁ ∷ b₂ ∷ b₃ ∷ _) =
    some (bit_or (bit_or (bit_or (u32 (b₀ <<< 24)) (u32 (b₁ <<< 16))) (u32 (b₂ <<< 8))) b₃)
read_u32_be _ = none

-- The arguments `val >> 32` and `val & 0xFFFFFFFF` are converted to `uint32_t`.
unfoldable pub write_u64_be : List ℕ → ℕ → List ℕ
write_u64_be buf val =
    let buf₁ = write_u32_be buf (u32 (val >>> 32)) in
    write_u32_be buf₁ (u32 (bit_and val 0xFFFFFFFF))

unfoldable pub read_u64_be : List ℕ → Option ℕ
read_u64_be buf = do
  hi ← read_u32_be buf
  lo ← read_u32_be (drop 4 buf)
  some (bit_or (u64 (hi <<< 32)) lo)

-- A `float` is its 32-bit pattern, so that both `memcpy`s copy the number itself.
unfoldable pub write_float_be : List ℕ → ℕ → List ℕ
write_float_be buf val = let ival = val in write_u32_be buf ival

unfoldable pub read_float_be : List ℕ → Option ℕ
read_float_be buf = do ival ← read_u32_be buf; some ival
