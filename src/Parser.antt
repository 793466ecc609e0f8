-- ===== src/Parser.antt =====
-- src/core/message/BinaryMessageParser.cpp: `serialize`, `deserialize`, `getHeaderSize`. The outer
-- `Option` of a result is `none` where the code reads behind the end of a buffer.
pub mod Frame
pub mod Split
pub mod RoundTrip
pub mod Safety
pub mod Changes
pub mod Corruption
use stradvision.Common.{
  ℕ, zero, suc, ◌+◌, List, [], ◌∷◌, ◌++◌, Option, none, some, Bool, ltb, ◌==◌, if◌then◌else◌,
  length, drop, u32,
}
use stradvision.Bytes.{
  ◌>>=◌, push_back, write_u16_be, write_u32_be, write_u64_be, read_u16_be, read_u32_be, read_u64_be,
}
use stradvision.Crc.{compute_crc32}
use stradvision.Message.{Message, header_size, message}

unfoldable pub get_header_size : ℕ
get_header_size = header_size

-- The bytes in front of the checksum.
unfoldable pub write_body : Message → List ℕ
write_body msg =
    let buf₁ = write_u32_be [] msg.header.payload_len in
    let buf₂ = write_u16_be buf₁ msg.header.type in
    let buf₃ = push_back buf₂ msg.header.flags in
    let buf₄ = write_u32_be buf₃ msg.header.agent_id in
    let buf₅ = write_u32_be buf₄ msg.header.header_id in
    let buf₆ = write_u64_be buf₅ msg.header.timestamp in buf₆ ++ msg.payload

unfoldable pub serialize : Message → Option (List ℕ)
serialize msg = do
  let buf = write_body msg
  computed_crc ← compute_crc32 buf (length buf)
  some (write_u32_be buf computed_crc)

-- `parsed` is a returned message with `bytes_consumed`; `incomplete` is `nullptr` and `crc_mismatch`
-- the exception, both with `bytes_consumed` at 0.
pub data Outcome : Type 0 where
  parsed : Message → ℕ → Outcome
  incomplete : Outcome
  crc_mismatch : Outcome

unfoldable pub read_u8 : List ℕ → Option ℕ
read_u8 [] = none
read_u8 (b ∷ _) = some b

-- `assign(p, p + n)`
unfoldable pub copy_bytes : ℕ → List ℕ → Option (List ℕ)
copy_bytes zero p = some []
copy_bytes (suc n) [] = none
copy_bytes (suc n) (b ∷ p) = do rest ← copy_bytes n p; some (b ∷ rest)

-- `deserialize` from the line that reads `type_val` on.
unfoldable pub read_frame : ℕ → List ℕ → ℕ → ℕ → Option Outcome
read_frame now ptr payload_len total_frame_size = do
  type_val ← read_u16_be (drop 4 ptr)
  flags ← read_u8 (drop 6 ptr)
  agent_id ← read_u32_be (drop 7 ptr)
  header_id ← read_u32_be (drop 11 ptr)
  timestamp ← read_u64_be (drop 15 ptr)
  payload ← if ltb 0 payload_len then copy_bytes payload_len (drop header_size ptr) else some []
  msg_crc ← read_u32_be (drop (header_size + payload_len) ptr)
  computed_crc ← compute_crc32 ptr (header_size + payload_len)
  let out_msg = message now type_val payload 0 0 flags
  let header = record out_msg.header {
    agent_id = agent_id;
    header_id = header_id;
    timestamp = timestamp;
  }
  if msg_crc == computed_crc
      then some (parsed (record out_msg { header = header; crc32 = msg_crc }) total_frame_size)
      else some crc_mismatch

-- `uint32_t total_frame_size` keeps the low 32 bits of a sum that is computed in `size_t`. The clock
-- is read by the constructor of the pooled message.
unfoldable pub deserialize : ℕ → List ℕ → Option Outcome
deserialize now ptr = if ltb (length ptr) header_size then some incomplete else do
  payload_len ← read_u32_be ptr
  let total_frame_size = u32 (header_size + payload_len + 4)
  if ltb (length ptr) total_frame_size
      then some incomplete
      else read_frame now ptr payload_len total_frame_size
