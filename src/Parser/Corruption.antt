-- ===== src/Parser/Corruption.antt =====
-- Frames that are cut short or changed on the way.
use mathlib.Core.Path.{subst}
use native.Mathlib.Decide.{dec_le}
use stradvision.Bytes.{read_u32_be}
use stradvision.Bytes.Sums.{bytes_u32, bytes_u32-IsByte, read_u32-append, read_u32_returns}
use stradvision.Common.{
  ℕ, ==_iff, All, All-append, Bool-cases, IsByte, IsU32, List, [], ap, append-nil, append_assoc,
  arith, inl, inr, length, length-append, lt→ltb, refl, some, sym, ◌++◌, ◌+◌, ◌==◌, ◌∙◌, ◌∷◌, ◌≡◌,
  ◌≢◌, ◌≤◌,
}
use stradvision.Crc.Fold.{crc32}
use stradvision.Message.{Header, Message, header_size}
use stradvision.Parser.{crc_mismatch, deserialize, incomplete, serialize}
use stradvision.Parser.Changes.{All-split, IsOnOneSide, one_good_checksum}
use stradvision.Parser.Frame.{
  IsHeader, body, frame, header_bytes, header_bytes-IsByte, length-header_bytes, serialize-frame,
}
use stradvision.Parser.RoundTrip.{
  IsSendable, deserialize-frame, deserialize_few, length-body, length-frame,
}
use stradvision.Parser.Safety.{take_frame}
use stradvision.Parser.Split.{read_payload_len, take_header}

read_frame_len :
    (h : Header) (payload : List ℕ) (crc : ℕ)
    → IsHeader h
    → read_u32_be (frame h payload crc) ≡ some h.payload_len
read_frame_len h payload crc v =
    rw (append_assoc (header_bytes h) payload (bytes_u32 crc)) (read_payload_len h v _)

-- On every proper prefix of a serialised message `deserialize` answers that bytes are missing.
pub deserialize_prefix :
    (now : ℕ) (m : Message) (front back : List ℕ) (x : ℕ)
    → IsSendable m
    → serialize m ≡ some (front ++ (x ∷ back))
    → deserialize now front ≡ some incomplete
deserialize_prefix now m front back x v e = elim (dec_le header_size (length front)) [
  | yes long ↦
      let (n, r) = read_u32_returns front (omega arith) in
      let same : n ≡ m.header.payload_len = cc (
        read_u32-append front (x ∷ back) r,
        read_frame_len m.header m.payload crc v.ranges,
        whole,
      ) in
      deserialize_few now front n long r (
        let fits = v.fits in
        omega (
          arith,
          ap length whole,
          length-append front (x ∷ back),
          length-frame m.header m.payload crc v.counted,
        ))
  | no short ↦ unfold deserialize in rw (lt→ltb (length front) header_size (omega arith))
]
  where
    crc : ℕ
    crc = crc32 (body m.header m.payload)

    whole : front ++ (x ∷ back) ≡ frame m.header m.payload crc
    whole = cc (serialize-frame m v.ranges)

-- A buffer that starts with one whole frame, seen as that frame.
take_whole :
    (p : List ℕ) (n : ℕ)
    → All IsByte p
    → length p ≡ header_size + n + 4
    → read_u32_be p ≡ some n
    → (h : Header) × (payload : List ℕ) × (crc : ℕ) × IsHeader h
      × (length payload ≡ n)
      × (h.payload_len ≡ n)
      × IsU32 crc
      × (p ≡ frame h payload crc)
take_whole p n a l r =
    let (h, tail, v, e, b) = take_header p (omega arith) a in
    let len : h.payload_len ≡ n = cc (read_payload_len h v tail) in
    let size : length tail ≡ n + 4 =
      omega (arith, ap length e, length-append (header_bytes h) tail, length-header_bytes h) in
    let f = take_frame h tail b (omega arith) in
    let none_left : f.rest ≡ [] = length_zero f.rest (
      omega (
        arith,
        ap length f.shape,
        length-append f.payload (bytes_u32 f.crc ++ f.rest),
        f.counted,
      )) in
    (
      h,
      f.payload,
      f.crc,
      v,
      f.counted ∙ len,
      len,
      f.crc_fits,
      e
          ∙ ap (◌++◌ (header_bytes h)) f.shape
          ∙ ap (λ (t : List ℕ). header_bytes h ++ (f.payload ++ (bytes_u32 f.crc ++ t))) none_left
          ∙ simp (append_assoc, append-nil),
    )
  where
    length_zero : (xs : List ℕ) → length xs ≡ 0 → xs ≡ []
    length_zero [] z = refl
    length_zero (_ ∷ _) z = absurd (omega arith)

-- If a few bytes of a serialised message are changed, within at most four bytes in a row, anywhere behind
-- the four that announce the length and all in front of the four of the checksum or all among them,
-- `deserialize` reports a checksum failure, whatever follows the frame in the buffer. One changed byte is
-- always such a change.
pub deserialize_tampered :
    (now : ℕ) (m : Message) (xs us vs ys rest : List ℕ)
    → IsSendable m
    → All IsByte m.payload
    → serialize m ≡ some (xs ++ (us ++ ys))
    → 4 ≤ length xs
    → All IsByte vs
    → length us ≡ length vs
    → length us ≤ 4
    → us ≢ vs
    → IsOnOneSide us ys
    → deserialize now ((xs ++ (vs ++ ys)) ++ rest) ≡ some crc_mismatch
deserialize_tampered now m xs us vs ys rest v payload e long hv same few ne side =
    let (h, p, c, head, counted, len, cv, shape) =
      take_whole (xs ++ (vs ++ ys)) n bytes size read in
    ap (λ (t : List ℕ). deserialize now (t ++ rest)) shape
    ∙ deserialize-frame now h p rest c head (omega arith) (omega (arith, v.fits)) cv
    ∙ elim (Bool-cases (c == crc32 (body h p))) [
      | inl good ↦ absurd (
          one_good_checksum m.header h m.payload p xs us vs ys body_bytes hv same few ne side
            (omega (arith, length-body m.header m.payload n v.counted, length-body h p n counted))
            whole (shape ∙ ap (frame h p) ((==_iff c (crc32 (body h p))).0 good)))
      | inr bad ↦ rw bad
    ]
  where
    n : ℕ
    n = m.header.payload_len

    crc : ℕ
    crc = crc32 (body m.header m.payload)

    whole : xs ++ (us ++ ys) ≡ frame m.header m.payload crc
    whole = cc (serialize-frame m v.ranges)

    body_bytes : All IsByte (body m.header m.payload)
    body_bytes =
        All-append IsByte (header_bytes m.header) m.payload
          (header_bytes-IsByte m.header v.ranges.5) payload

    frame_bytes : All IsByte (xs ++ (us ++ ys))
    frame_bytes = subst (All IsByte) (sym whole) (
        All-append IsByte (body m.header m.payload) (bytes_u32 crc) body_bytes
          (bytes_u32-IsByte crc))

    bytes : All IsByte (xs ++ (vs ++ ys))
    bytes =
        let (hx, rest_bytes) = All-split xs (us ++ ys) frame_bytes in
        All-append IsByte xs (vs ++ ys) hx
          (All-append IsByte vs ys hv (All-split us ys rest_bytes).1)

    size : length (xs ++ (vs ++ ys)) ≡ header_size + n + 4
    size = omega (
      arith,
      length-append xs (vs ++ ys),
      length-append vs ys,
      length-append xs (us ++ ys),
      length-append us ys,
      ap length whole,
      length-frame m.header m.payload crc v.counted,
    )

    read : read_u32_be (xs ++ (vs ++ ys)) ≡ some n
    read =
        let (k, r) = read_u32_returns xs long in
        read_u32-append xs (vs ++ ys) r
        ∙ sym (read_u32-append xs (us ++ ys) r)
        ∙ ap read_u32_be whole
        ∙ read_frame_len m.header m.payload crc v.ranges
