-- ===== src/Crc.antt =====
-- src/core/message/BinaryMessageParser.cpp, `compute_crc32`. The result `none` is a read behind the end
-- of the bytes that the pointer leads to.
pub mod Fold
pub mod Back
pub mod Detects
use stradvision.Common.{
  ℕ, zero, suc, ◌-◌, ◌^◌, List, [], ◌∷◌, Option, none, some, Bool, bit_and, bit_xor, ◌==◌,
  if◌then◌else◌, ◌>>>◌,
}

-- One round of the inner loop: `if (crc & 1) crc = (crc >> 1) ^ 0xEDB88320; else crc >>= 1;`
unfoldable pub crc_bit : ℕ → ℕ
crc_bit crc = if bit_and crc 1 == 0 then crc >>> 1 else bit_xor (crc >>> 1) 0xEDB88320

-- The inner loop with `n` rounds left.
unfoldable pub crc_bits : ℕ → ℕ → ℕ
crc_bits zero crc = crc
crc_bits (suc n) crc = crc_bits n (crc_bit crc)

-- The body of the outer loop.
unfoldable pub crc_byte : ℕ → ℕ → ℕ
crc_byte crc b = crc_bits 8 (bit_xor crc b)

-- The outer loop with `n` rounds left, the pointer at `data[i]`.
unfoldable pub crc_loop : ℕ → List ℕ → ℕ → Option ℕ
crc_loop zero p crc = some crc
crc_loop (suc n) [] crc = none
crc_loop (suc n) (b ∷ p) crc = crc_loop n p (crc_byte crc b)

-- `return ~crc`
abbrev pub complement : Option ℕ → Option ℕ
complement none = none
complement (some crc) = some (2 ^ 32 - 1 - crc)

unfoldable pub compute_crc32 : List ℕ → ℕ → Option ℕ
compute_crc32 p n = complement (crc_loop n p 0xFFFFFFFF)
