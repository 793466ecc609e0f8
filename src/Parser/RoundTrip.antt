-- ===== src/Parser/RoundTrip.antt =====
-- `deserialize` after `serialize`, and `serialize` after `deserialize`.
use mathlib.Core.Path.{subst}
use stradvision.Bytes.{read_u16_be, read_u32_be, read_u64_be}
use stradvision.Bytes.Sums.{bytes_u32, read_u32-bytes}
use stradvision.Common.{
  Bool-cases, IsU32, List, [], ap, append_assoc, arith, drop, drop-append, eq→==, if◌then◌else◌,
  inl, inr, length, length-append, le→ltb, ltb, lt→ltb, refl, some, sym, u32, ℕ, ◌++◌, ◌+◌, ◌<◌,
  ◌==◌, ◌^◌, ◌∙◌, ◌≡◌, ◌≤◌,
}
use stradvision.Crc.{compute_crc32}
use stradvision.Crc.Fold.{compute_crc32-crc32, crc32, crc32-lt}
use stradvision.Message.{Header, Message, header_size, message}
use stradvision.Parser.{
  Outcome, copy_bytes, crc_mismatch, deserialize, incomplete, parsed, read_frame, read_u8,
  serialize,
}
use stradvision.Parser.Frame.{
  IsHeader, body, frame, header_bytes, length-header_bytes, serialize-frame,
}
use stradvision.Parser.Split.{
  copy_bytes-append, copy_payload, read_agent_id, read_flags, read_header_id, read_payload_len,
  read_timestamp, read_type,
}

body-split :
    (h : Header) (payload rest : List ℕ)
    → header_bytes h ++ (payload ++ rest) ≡ body h payload ++ rest
body-split h payload rest = sym (append_assoc (header_bytes h) payload rest)

pub length-body :
    (h : Header) (payload : List ℕ) (n : ℕ)
    → length payload ≡ n
    → length (body h payload) ≡ header_size + n
length-body h payload n e =
    omega (arith, length-append (header_bytes h) payload, length-header_bytes h, e)

-- The message that a frame stands for.
abbrev pub decoded : Header → List ℕ → ℕ → Message
decoded h payload crc = record { header = h; payload = payload; crc32 = crc }

-- The message as `deserialize` puts it together.
abbrev assembled : ℕ → Header → List ℕ → ℕ → Message
assembled now h payload crc =
    let out_msg = message now h.type payload 0 0 h.flags in
    record out_msg {
      header = record out_msg.header {
        agent_id = h.agent_id;
        header_id = h.header_id;
        timestamp = h.timestamp;
      };
      crc32 = crc;
    }

assembled-decoded :
    (now : ℕ) (h : Header) (payload : List ℕ) (crc : ℕ)
    → length payload ≡ h.payload_len
    → IsU32 h.payload_len
    → assembled now h payload crc ≡ decoded h payload crc
unfolding message
assembled-decoded now h payload crc e v =
    let l : u32 (length payload) ≡ h.payload_len = omega arith in ground arith

abbrev pub verdict : Message → ℕ → ℕ → ℕ → Outcome
verdict m total crc computed = if crc == computed then parsed m total else crc_mismatch

read_frame-reads :
    (now : ℕ) (ptr : List ℕ) (h : Header) (n total : ℕ) (payload : List ℕ) (crc computed : ℕ)
    → read_u16_be (drop 4 ptr) ≡ some h.type
    → read_u8 (drop 6 ptr) ≡ some h.flags
    → read_u32_be (drop 7 ptr) ≡ some h.agent_id
    → read_u32_be (drop 11 ptr) ≡ some h.header_id
    → read_u64_be (drop 15 ptr) ≡ some h.timestamp
    → (if ltb 0 n then copy_bytes n (drop header_size ptr) else some []) ≡ some payload
    → read_u32_be (drop (header_size + n) ptr) ≡ some crc
    → compute_crc32 ptr (header_size + n) ≡ some computed
    → read_frame now ptr n total ≡ some (verdict (assembled now h payload crc) total crc computed)
unfolding read_frame
read_frame-reads now ptr h n total payload crc computed r₁ r₂ r₃ r₄ r₅ r₆ r₇ r₈ =
    rw (r₁, r₂, r₃, r₄, r₅, r₆, r₇, r₈)
      (elim (Bool-cases (crc == computed)) [ inl e ↦ rw e | inr e ↦ rw e ])

module _ (now : ℕ) (h : Header) (payload rest : List ℕ) (crc total : ℕ) where
  -- Past the size check, the checksum alone decides.
  pub read_frame-frame :
      IsHeader h
      → length payload ≡ h.payload_len
      → IsU32 crc
      → read_frame now (body h payload ++ (bytes_u32 crc ++ rest)) h.payload_len total
        ≡ some (verdict (decoded h payload crc) total crc (crc32 (body h payload)))
  read_frame-frame v e c =
      subst
        (λ (p : List ℕ).
          read_frame now p h.payload_len total
          ≡ some (verdict (assembled now h payload crc) total crc (crc32 (body h payload))))
        split reads
      ∙ ap (λ (m : Message). some (verdict m total crc (crc32 (body h payload))))
          (assembled-decoded now h payload crc e v.4)
    where
      tail : List ℕ
      tail = payload ++ (bytes_u32 crc ++ rest)

      split : header_bytes h ++ tail ≡ body h payload ++ (bytes_u32 crc ++ rest)
      split = body-split h payload (bytes_u32 crc ++ rest)

      size : length (body h payload) ≡ header_size + h.payload_len
      size = length-body h payload h.payload_len e

      behind : drop (header_size + h.payload_len) (header_bytes h ++ tail) ≡ bytes_u32 crc ++ rest
      behind = rw split (drop-append (header_size + h.payload_len) (body h payload) _ size)

      copied :
          (if ltb 0 h.payload_len
            then copy_bytes h.payload_len (drop header_size (header_bytes h ++ tail))
            else some [])
          ≡ some payload
      copied = copy_payload h.payload_len (drop header_size (header_bytes h ++ tail)) (
          rw (drop-append header_size (header_bytes h) tail (length-header_bytes h))
            (copy_bytes-append h.payload_len payload _ e))

      reads :
          read_frame now (header_bytes h ++ tail) h.payload_len total
          ≡ some (verdict (assembled now h payload crc) total crc (crc32 (body h payload)))
      reads =
          read_frame-reads now (header_bytes h ++ tail) h h.payload_len total payload crc
            (crc32 (body h payload)) (read_type h v tail) (read_flags h v tail)
            (read_agent_id h v tail) (read_header_id h v tail) (read_timestamp h v tail) copied
            (rw behind (read_u32-bytes crc rest c))
            (rw split (compute_crc32-crc32 (body h payload) _ (header_size + h.payload_len) size))

-- What a sender has to fill in: fields in range, the length of the payload, a size that fits 32 bits.
pub record IsSendable (m : Message) : Type 0 where
  pub ranges : IsHeader m.header
  pub counted : length m.payload ≡ m.header.payload_len
  pub fits : header_size + m.header.payload_len + 4 < 2 ^ 32

pub deserialize-enough :
    (now : ℕ) (ptr : List ℕ) (n : ℕ)
    → header_size ≤ length ptr
    → read_u32_be ptr ≡ some n
    → u32 (header_size + n + 4) ≤ length ptr
    → deserialize now ptr ≡ read_frame now ptr n (u32 (header_size + n + 4))
unfolding deserialize
deserialize-enough now ptr n l r t =
    rw (le→ltb (length ptr) header_size l, r, le→ltb (length ptr) (u32 (header_size + n + 4)) t)

pub deserialize_few :
    (now : ℕ) (ptr : List ℕ) (n : ℕ)
    → header_size ≤ length ptr
    → read_u32_be ptr ≡ some n
    → length ptr < u32 (header_size + n + 4)
    → deserialize now ptr ≡ some incomplete
unfolding deserialize
deserialize_few now ptr n l r t =
    rw (le→ltb (length ptr) header_size l, r, lt→ltb (length ptr) (u32 (header_size + n + 4)) t)

pub length-frame :
    (h : Header) (payload : List ℕ) (crc : ℕ)
    → length payload ≡ h.payload_len
    → length (frame h payload crc) ≡ header_size + h.payload_len + 4
length-frame h payload crc e =
    omega
      (arith, length-append (body h payload) (bytes_u32 crc), length-body h payload h.payload_len e)

pub deserialize-frame :
    (now : ℕ) (h : Header) (payload rest : List ℕ) (crc : ℕ)
    → IsHeader h
    → length payload ≡ h.payload_len
    → header_size + h.payload_len + 4 < 2 ^ 32
    → IsU32 crc
    → deserialize now (frame h payload crc ++ rest)
      ≡ some (
          verdict
            (decoded h payload crc)
            (header_size + h.payload_len + 4)
            crc
            (crc32 (body h payload)))
deserialize-frame now h payload rest crc v e fits c =
    deserialize-enough now (frame h payload crc ++ rest) h.payload_len (omega (arith, size))
      (rw (append_assoc, append_assoc) (read_payload_len h v _)) (omega (arith, size))
    ∙ rw (append_assoc (body h payload) (bytes_u32 crc) rest, total)
        (read_frame-frame now h payload rest crc (header_size + h.payload_len + 4) v e c)
  where
    size : length (frame h payload crc ++ rest) ≡ header_size + h.payload_len + 4 + length rest
    size = omega (arith, length-append (frame h payload crc) rest, length-frame h payload crc e)

    total : u32 (header_size + h.payload_len + 4) ≡ header_size + h.payload_len + 4
    total = omega arith

-- Serialising a message whose fields are in range and whose `payload_len` counts its payload succeeds,
-- and deserialising the bytes, whatever follows them, returns the same message with its checksum
-- filled in, and consumes exactly those bytes.
pub deserialize-serialize :
    (now : ℕ) (m : Message) (rest : List ℕ)
    → IsSendable m
    → (bs : List ℕ) × (serialize m ≡ some bs)
      × (deserialize now (bs ++ rest)
          ≡ some (parsed (record m { crc32 = crc32 (body m.header m.payload) }) (length bs)))
deserialize-serialize now m rest v = (
  frame m.header m.payload crc,
  serialize-frame m v.ranges,
  deserialize-frame now m.header m.payload rest crc v.ranges v.counted v.fits (crc32-lt _)
      ∙ rw (eq→== crc crc refl, length-frame m.header m.payload crc v.counted),
)
  where
    crc : ℕ
    crc = crc32 (body m.header m.payload)
