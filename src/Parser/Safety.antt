-- ===== src/Parser/Safety.antt =====
-- `deserialize` on any bytes: which reads stay inside the buffer, and what a returned message says of
use native.Mathlib.Decide.{dec_le}
use mathlib.Core.Path.{subst}
-- the bytes.
use stradvision.Bytes.{read_u32_be}
use stradvision.Bytes.Sums.{bytes_u32}
use stradvision.Common.{
  All, All-drop, All-take, Bool-cases, IsByte, IsU32, List, ap, append_assoc, arith, drop,
  drop-append, inl, inr, length, length-append, length-drop, length-take, lt→ltb, none, refl, some,
  sym, take, take-append-drop, u32, ℕ, ◌++◌, ◌+◌, ◌<◌, ◌==◌, ◌^◌, ◌∙◌, ◌≡◌, ◌≤◌,
}
use stradvision.Crc.Fold.{crc32}
use stradvision.Message.{Header, Message, header_size}
use stradvision.Parser.{Outcome, crc_mismatch, deserialize, incomplete, parsed, read_frame}
use stradvision.Parser.Frame.{IsHeader, body, frame, header_bytes, length-header_bytes}
use stradvision.Parser.RoundTrip.{
  decoded, deserialize-enough, deserialize-frame, deserialize_few, verdict,
}
use stradvision.Parser.Split.{
  by_u32, copy_bytes_short, read_agent_id, read_flags, read_header_id, read_payload_len,
  read_timestamp, read_type, take_header,
}

-- Bytes that hold the size which their header announces are a frame and a rest.
pub record Frames (h : Header) (tail : List ℕ) : Type 0 where
  pub payload : List ℕ
  pub crc : ℕ
  pub rest : List ℕ
  pub shape : tail ≡ payload ++ (bytes_u32 crc ++ rest)
  pub counted : length payload ≡ h.payload_len
  pub crc_fits : IsU32 crc
  pub payload_bytes : All IsByte payload

pub take_frame :
    (h : Header) (tail : List ℕ) → All IsByte tail → h.payload_len + 4 ≤ length tail → Frames h tail
take_frame h tail a long = subst (Frames h) (take-append-drop len tail) (
    by_u32 (λ q. Frames h (take len tail ++ q)) 0 (drop len tail)
      (omega (arith, length-drop len tail)) (All-drop IsByte len tail a)
      λ crc rest c _ _. record {
        payload = take len tail;
        crc = crc;
        rest = rest;
        shape = refl;
        counted = length-take len tail (omega arith);
        crc_fits = c;
        payload_bytes = All-take IsByte len tail a;
      })
  where
    len : ℕ
    len = h.payload_len

-- The answer of `deserialize` from a header and what follows it.
pub deserialize-Frames :
    (now : ℕ) (h : Header) (tail : List ℕ) (f : Frames h tail)
    → IsHeader h
    → header_size + h.payload_len + 4 < 2 ^ 32
    → deserialize now (header_bytes h ++ tail)
      ≡ some (
          verdict
            (decoded h f.payload f.crc)
            (header_size + h.payload_len + 4)
            f.crc
            (crc32 (body h f.payload)))
deserialize-Frames now h tail f v fits =
    ap (λ (t : List ℕ). deserialize now (header_bytes h ++ t)) f.shape
    ∙ ap (deserialize now) regroup
    ∙ deserialize-frame now h f.payload f.rest f.crc v f.counted fits f.crc_fits
  where
    regroup :
        header_bytes h ++ (f.payload ++ (bytes_u32 f.crc ++ f.rest))
        ≡ frame h f.payload f.crc ++ f.rest
    regroup = simp append_assoc

-- What each answer says: a message lies inside the buffer, and takes 27 bytes more than its payload.
abbrev pub Answers : List ℕ → Outcome → Type 0
Answers ptr (parsed m n) =
    (n ≤ length ptr) × (n ≡ header_size + length m.payload + 4) × IsHeader m.header
Answers ptr incomplete = Unit {0}
Answers ptr crc_mismatch = header_size + 4 ≤ length ptr

verdict-Answers :
    (ptr : List ℕ) (m : Message) (n c d : ℕ)
    → n ≤ length ptr
    → n ≡ header_size + length m.payload + 4
    → IsHeader m.header
    → Answers ptr (verdict m n c d)
verdict-Answers ptr m n c d l e v = elim (Bool-cases (c == d)) [
  | inl t ↦ rw t (l, e, v)
  | inr t ↦ rw t (omega arith)
]

-- The announced size fits the 32-bit variable that holds it.
abbrev pub FitsWord : List ℕ → Type 0
FitsWord ptr = (n : ℕ) → read_u32_be ptr ≡ some n → header_size + n + 4 < 2 ^ 32

abbrev Answered : ℕ → List ℕ → Type 0
Answered now ptr = (o : Outcome) × (deserialize now ptr ≡ some o) × Answers ptr o

Answered-header :
    (now : ℕ) (h : Header) (tail : List ℕ)
    → IsHeader h
    → All IsByte tail
    → header_size + h.payload_len + 4 < 2 ^ 32
    → Answered now (header_bytes h ++ tail)
Answered-header now h tail v a fits = elim (dec_le (h.payload_len + 4) (length tail)) [
  | yes enough ↦
      let f = take_frame h tail a enough in
      (
        verdict (decoded h f.payload f.crc) (header_size + h.payload_len + 4) f.crc
            (crc32 (body h f.payload)),
        deserialize-Frames now h tail f v fits,
        verdict-Answers (header_bytes h ++ tail) (decoded h f.payload f.crc) _ _ _
            (omega (arith, size)) (omega (arith, f.counted)) v,
      )
  | no few ↦ (
    incomplete,
    deserialize_few now (header_bytes h ++ tail) h.payload_len (omega (arith, size))
        (read_payload_len h v tail) (omega (arith, size)),
    tt,
  )
]
  where
    size : length (header_bytes h ++ tail) ≡ header_size + length tail
    size = omega (arith, length-append (header_bytes h) tail, length-header_bytes h)

-- On any bytes whose announced size fits 32 bits `deserialize` returns: it never reads behind the
-- buffer. A returned message takes 27 bytes more than its payload, all inside the buffer, and its
-- fields are in range; a checksum failure is reported on 27 bytes or more.
pub deserialize-Answers :
    (now : ℕ) (ptr : List ℕ)
    → All IsByte ptr
    → FitsWord ptr
    → (o : Outcome) × (deserialize now ptr ≡ some o) × Answers ptr o
deserialize-Answers now ptr a fits = elim (dec_le header_size (length ptr)) [
  | yes long ↦
      let (h, tail, v, e, b) = take_header ptr long a in
      subst (Answered now) (sym e)
        (Answered-header now h tail v b (fits h.payload_len (rw e (read_payload_len h v tail))))
  | no short ↦
      (incomplete, unfold deserialize in rw (lt→ltb (length ptr) header_size (omega arith)), tt)
]

-- If `23 + payload_len + 4` is 2 ^ 32 or more, and the header is followed by three bytes or more but by
-- fewer than announced, then `deserialize` reads behind the end of the buffer.
pub deserialize_wraps :
    (now : ℕ) (h : Header) (tail : List ℕ)
    → IsHeader h
    → 2 ^ 32 ≤ header_size + h.payload_len + 4
    → 3 ≤ length tail
    → length tail < h.payload_len
    → deserialize now (header_bytes h ++ tail) ≡ none
deserialize_wraps now h tail v wraps three short =
    deserialize-enough now (header_bytes h ++ tail) h.payload_len (omega (arith, size))
      (read_payload_len h v tail) (omega (arith, size, v.4))
    ∙ overrun
  where
    size : length (header_bytes h ++ tail) ≡ header_size + length tail
    size = omega (arith, length-append (header_bytes h) tail, length-header_bytes h)

    overrun :
        read_frame now
          (header_bytes h ++ tail)
          h.payload_len
          (u32 (header_size + h.payload_len + 4))
        ≡ none
    overrun =
        unfold read_frame in
        rw
          (
            read_type h v tail,
            read_flags h v tail,
            read_agent_id h v tail,
            read_header_id h v tail,
            read_timestamp h v tail,
            lt→ltb 0 h.payload_len (omega arith),
            drop-append header_size (header_bytes h) tail (length-header_bytes h),
            copy_bytes_short h.payload_len tail short,
          )
          refl
