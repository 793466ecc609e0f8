-- ===== src/Parser/Frame.antt =====
-- The layout of a frame on the wire, and what the parser does on one.
use stradvision.Bytes.Sums.{bytes_u16, bytes_u32, write_u16-bytes, write_u32-bytes, write_u64-bytes}
use stradvision.Common.{
  All, IsByte, IsU16, IsU32, IsU64, List, append_assoc, arith, length, refl, some, u32, ℕ, ◌%◌,
  ◌++◌, ◌/◌, ◌^◌, ◌∷◌, ◌≡◌,
}
use stradvision.Crc.Fold.{compute_crc32_whole, crc32}
use stradvision.Message.{Header, Message}
use stradvision.Parser.{serialize, write_body}

abbrev pub IsHeader : Header → Type 0
IsHeader h =
    IsU16 h.type
    × IsU32 h.agent_id
    × IsU32 h.header_id
    × IsU64 h.timestamp
    × IsU32 h.payload_len
    × IsByte h.flags

unfoldable pub header_bytes : Header → List ℕ
header_bytes h =
    bytes_u32 h.payload_len
    ++ (bytes_u16 h.type
        ++ (h.flags
            ∷ (bytes_u32 h.agent_id
                ++ (bytes_u32 h.header_id
                    ++ (bytes_u32 (h.timestamp / 2 ^ 32) ++ bytes_u32 (h.timestamp % 2 ^ 32))))))

-- Header and payload.
abbrev pub body : Header → List ℕ → List ℕ
body h payload = header_bytes h ++ payload

abbrev pub frame : Header → List ℕ → ℕ → List ℕ
frame h payload crc = body h payload ++ bytes_u32 crc

high_half : (t : ℕ) → IsU64 t → u32 (t / 2 ^ 32) ≡ t / 2 ^ 32
high_half t h = omega arith

write_body-body : (m : Message) → IsHeader m.header → write_body m ≡ body m.header m.payload
unfolding write_body header_bytes
write_body-body m h = simp (
  write_u32-bytes,
  write_u16-bytes,
  write_u64-bytes,
  append_assoc,
  high_half m.header.timestamp h.3,
)

-- A message is written as its header, its payload, and the checksum of the two.
pub serialize-frame :
    (m : Message)
    → IsHeader m.header
    → serialize m ≡ some (frame m.header m.payload (crc32 (body m.header m.payload)))
unfolding serialize
serialize-frame m h =
    rw (write_body-body m h, compute_crc32_whole (body m.header m.payload), write_u32-bytes)

pub length-header_bytes : (h : Header) → length (header_bytes h) ≡ 23
unfolding header_bytes
length-header_bytes h = refl

pub header_bytes-IsByte : (h : Header) → IsByte h.flags → All IsByte (header_bytes h)
unfolding header_bytes
header_bytes-IsByte h f = omega arith
