-- ===== src/Comm/Reads.antt =====
-- The read side of TcpComm: the reads that asio finishes, one after the other.
use stradvision.Bytes.{◌>>=◌}
use stradvision.Bytes.Sums.{bytes_u32}
use stradvision.Comm.{
  ℕ, Effect, TcpComm, async_read, async_read_body, deliver, fill, on_body, on_frame, on_header,
  read_body, read_header,
}
use stradvision.Common.{
  Bool, Bool-cases, List, Option, [], ap, append_assoc, arith, drop, eq→==, false, if◌then◌else◌,
  inl, inr, length, length-append, ltb, none, refl, replicate, some, suc, sym, take, take-append,
  true, zero, ◌++◌, ◌+◌, ◌-◌, ◌<◌, ◌^◌, ◌∷◌, ◌≡◌, ◌≤◌,
}
use stradvision.Crc.Fold.{crc32, crc32-lt}
use stradvision.Message.{Header, Message, header_size}
use stradvision.Parser.{get_header_size}
use stradvision.Parser.Frame.{IsHeader, body, frame, header_bytes, length-header_bytes}
use stradvision.Parser.RoundTrip.{decoded, deserialize-frame, length-frame}
use stradvision.Parser.Split.{read_payload_len}

-- What the connection waits for: so many bytes of a header, a body up to the given size, or nothing.
pub data Phase : Type 0 where
  at_header : ℕ → Phase
  at_body : ℕ → Phase
  stopped : Phase

pub record Reader : Type 0 where
  pub comm : TcpComm
  pub phase : Phase

-- The read that the effects ask for.
abbrev pub phase_of : List Effect → Phase
phase_of [] = stopped
phase_of (async_read n ∷ es) = at_header n
phase_of (async_read_body t ∷ es) = at_body t
phase_of (_ ∷ es) = phase_of es

abbrev advance : Option (TcpComm × List Effect) → Option (Reader × List Effect)
advance none = none
advance (some (c, es)) = some (record { comm = c; phase = phase_of es }, es)

-- asio finishes the read in progress with these bytes.
abbrev read_in : Phase → ℕ → (Message → Bool) → TcpComm → List ℕ → Option (Reader × List Effect)
read_in (at_header n) now throws c bytes = advance (on_header c bytes)
read_in (at_body total) now throws c bytes = advance (on_body now c total throws bytes)
read_in stopped now throws c bytes = some (record { comm = c; phase = stopped }, [])

unfoldable pub read_step : ℕ → (Message → Bool) → Reader → List ℕ → Option (Reader × List Effect)
read_step now throws r bytes = read_in r.phase now throws r.comm bytes

-- The size of the buffer that `async_read` was given.
abbrev pub wanted : Phase → ℕ
wanted (at_header n) = n
wanted (at_body total) = total - get_header_size
wanted stopped = 0

-- The socket's bytes: `async_read` finishes once as many are there as it was asked for, and takes those;
-- until then it waits. At most `k` reads are finished. The bytes that nobody has taken are left.
unfoldable pub run_reads :
    ℕ → ℕ → (Message → Bool) → Reader → List ℕ → Option (Reader × List Effect × List ℕ)
run_reads zero now throws r bytes = some (r, [], bytes)
run_reads (suc k) now throws r bytes =
    let n = wanted r.phase in
    if ltb (length bytes) n then some (r, [], bytes) else do
      (r', es) ← read_step now throws r (take n bytes)
      (r'', es', left) ← run_reads k now throws r' (drop n bytes)
      some (r'', es ++ es', left)

abbrev pub delivered : List Effect → List Message
delivered [] = []
delivered (deliver m ∷ es) = m ∷ delivered es
delivered (_ ∷ es) = delivered es

-- A buffer never gets shorter, and can hold a header.
pub record IsListening (r : Reader) : Type 0 where
  pub waits : r.phase ≡ at_header header_size
  pub handled : r.comm.has_msg_handler ≡ true
  pub room : header_size ≤ length r.comm.read_buffer

fill_header :
    (h : Header) (buf : List ℕ)
    → fill 0 (header_bytes h) buf ≡ header_bytes h ++ drop header_size buf
fill_header h buf =
    let size : 0 + length (header_bytes h) ≡ header_size = omega (arith, length-header_bytes h) in
    ap (λ (n : ℕ). header_bytes h ++ drop n buf) size

-- Once the header is in, the announced size is what is read next.
pub on_header-header :
    (c : TcpComm) (h : Header)
    → IsHeader h
    → (tail : List ℕ) × (on_header c (header_bytes h)
        ≡ some (
          record c { read_buffer = header_bytes h ++ tail },
          async_read_body (header_size + h.payload_len + 4) ∷ [],
        ))
unfolding on_header get_header_size read_body
on_header-header c h v = elim (Bool-cases (ltb (length (header_bytes h ++ rest)) total)) [
  | inl less ↦ (
    rest ++ replicate (total - length (header_bytes h ++ rest)) 0,
    rw (fill_header h c.read_buffer, read_payload_len h v rest, less, append_assoc),
  )
  | inr enough ↦ (rest, rw (fill_header h c.read_buffer, read_payload_len h v rest, enough))
]
  where
    rest : List ℕ
    rest = drop header_size c.read_buffer

    total : ℕ
    total = header_size + h.payload_len + 4

-- The rest of a frame lands behind its header.
fill_body :
    (h : Header) (payload tail : List ℕ) (crc : ℕ)
    → (rest : List ℕ) × (fill header_size (payload ++ bytes_u32 crc) (header_bytes h ++ tail)
        ≡ frame h payload crc ++ rest)
fill_body h payload tail crc = (
  drop (header_size + length (payload ++ bytes_u32 crc)) (header_bytes h ++ tail),
  rw (take-append header_size (header_bytes h) tail (length-header_bytes h)) (simp append_assoc),
)

module _ (now : ℕ) (throws : Message → Bool) (c : TcpComm) (h : Header)
    (payload tail : List ℕ) where
  -- A frame with the right checksum is handed to the message handler, and the next header awaited.
  pub on_body-frame :
      (total : ℕ)
      → IsHeader h
      → length payload ≡ h.payload_len
      → total ≡ header_size + h.payload_len + 4
      → total < 2 ^ 32
      → c.has_msg_handler ≡ true
      → c.read_buffer ≡ header_bytes h ++ tail
      → throws (decoded h payload (crc32 (body h payload))) ≡ false
      → let m = decoded h payload (crc32 (body h payload)) in
        (rest : List ℕ) × (on_body now c total throws
            (payload ++ bytes_u32 (crc32 (body h payload)))
          ≡ some (record c { read_buffer = rest }, deliver m ∷ async_read header_size ∷ []))
        × (header_size ≤ length rest)
  unfolding on_body on_frame get_header_size read_header
  on_body-frame total v e t fits handler buf quiet =
      let crc : ℕ = crc32 (body h payload) in
      let (rest, filled) = fill_body h payload tail crc in
      (
        frame h payload crc ++ rest,
        rw (
          buf,
          filled,
          deserialize-frame now h payload rest crc v e (omega arith) (crc32-lt (body h payload)),
          eq→== crc crc refl,
          eq→== (header_size + h.payload_len + 4) total (sym t),
          handler,
          quiet,
        ),
        omega (arith, length-append (frame h payload crc) rest, length-frame h payload crc e),
      )
