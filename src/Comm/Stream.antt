-- ===== src/Comm/Stream.antt =====
-- The messages of a sender, cut into the reads of a receiver.
use stradvision.Bytes.{◌>>=◌}
use stradvision.Bytes.Sums.{bytes_u32}
use stradvision.Comm.{ℕ, Effect, async_read, async_read_body, deliver}
use stradvision.Comm.Reads.{
  IsListening, Reader, at_body, at_header, delivered, on_body-frame, on_header-header, read_step,
  run_reads, wanted,
}
use stradvision.Common.{
  All, Bool, List, Option, [], ap, append_assoc, arith, drop-append, false, length, length-append,
  le→ltb, lt→ltb, refl, some, suc, sym, take-append, zero, ◌*◌, ◌++◌, ◌+◌, ◌-◌, ◌<◌, ◌∙◌, ◌∷◌, ◌≡◌,
  ◌≤◌,
}
use stradvision.Crc.Fold.{crc32}
use stradvision.Message.{Message, header_size}
use stradvision.Parser.{get_header_size, serialize}
use stradvision.Parser.Frame.{body, header_bytes, length-header_bytes, serialize-frame}
use stradvision.Parser.RoundTrip.{IsSendable}

-- The bytes of messages that were sent one after the other.
unfoldable pub stream : List Message → Option (List ℕ)
stream [] = some []
stream (m ∷ ms) = do bs ← serialize m; rest ← stream ms; some (bs ++ rest)

-- A message as its receiver has it: with the checksum filled in.
abbrev pub sealed : Message → Message
sealed m = record m { crc32 = crc32 (body m.header m.payload) }

abbrev pub all_sealed : List Message → List Message
all_sealed [] = []
all_sealed (m ∷ ms) = sealed m ∷ all_sealed ms

abbrev rear : Message → List ℕ
rear m = m.payload ++ bytes_u32 (crc32 (body m.header m.payload))

abbrev bytes_of : List Message → List ℕ
bytes_of [] = []
bytes_of (m ∷ ms) = (header_bytes m.header ++ rear m) ++ bytes_of ms

stream-bytes : (ms : List Message) → All IsSendable ms → stream ms ≡ some (bytes_of ms)
unfolding stream
stream-bytes [] v = refl
stream-bytes (m ∷ ms) v =
    rw (serialize-frame m v.0.ranges, stream-bytes ms v.1)
      (ap (λ (x : List ℕ). some (x ++ bytes_of ms))
        (append_assoc (header_bytes m.header) m.payload
          (bytes_u32 (crc32 (body m.header m.payload)))))

-- Two reads for each message.
abbrev reads : List Message → ℕ → ℕ
reads [] k = k
reads (m ∷ ms) k = suc (suc (reads ms k))

reads-count : (ms : List Message) (k : ℕ) → reads ms k ≡ 2 * length ms + k
reads-count [] k = omega arith
reads-count (m ∷ ms) k = omega (arith, reads-count ms k)

enough_reads : (ms : List Message) (k : ℕ) → 2 * length ms ≤ k → reads ms (k - 2 * length ms) ≡ k
enough_reads ms k h = omega (arith, h, reads-count ms (k - 2 * length ms))

rear_size :
    (m : Message)
    → IsSendable m
    → length (rear m) ≡ header_size + m.header.payload_len + 4 - get_header_size
unfolding get_header_size
rear_size m v =
    omega (arith, length-append m.payload (bytes_u32 (crc32 (body m.header m.payload))), v.counted)

module _ (now : ℕ) (throws : Message → Bool) where
  -- A read that has all its bytes.
  one_read :
      (k : ℕ) (r r' r'' : Reader) (bytes more left : List ℕ) (es es' : List Effect)
      → length bytes ≡ wanted r.phase
      → read_step now throws r bytes ≡ some (r', es)
      → run_reads k now throws r' more ≡ some (r'', es', left)
      → run_reads (suc k) now throws r (bytes ++ more) ≡ some (r'', es ++ es', left)
  unfolding run_reads
  one_read k r r' r'' bytes more left es es' h s e = rw (
    le→ltb (length (bytes ++ more)) (wanted r.phase) (omega (arith, h, length-append bytes more)),
    take-append (wanted r.phase) bytes more h,
    drop-append (wanted r.phase) bytes more h,
    s,
    e,
  )

  -- A read that lacks bytes waits.
  short_read :
      (k : ℕ) (r : Reader) (bytes : List ℕ)
      → length bytes < wanted r.phase
      → run_reads k now throws r bytes ≡ some (r, [], bytes)
  unfolding run_reads
  short_read zero r bytes h = refl
  short_read (suc k) r bytes h = rw (lt→ltb (length bytes) (wanted r.phase) h)

  Receives : ℕ → Reader → List ℕ → List ℕ → List Message → Type 0
  Receives k r bytes left ms =
      (r' : Reader) × (es : List Effect) × (run_reads k now throws r bytes ≡ some (r', es, left))
      × (delivered es ≡ ms)
      × IsListening r'

  -- Two reads bring in one message.
  receive :
      (k : ℕ) (r : Reader) (m : Message) (more left : List ℕ) (ms : List Message)
      → IsSendable m
      → throws (sealed m) ≡ false
      → IsListening r
      → ((r' : Reader) → IsListening r' → Receives k r' more left ms)
      → Receives (suc (suc k)) r (header_bytes m.header ++ (rear m ++ more)) left (sealed m ∷ ms)
  unfolding read_step Receives
  receive k r m more left ms v quiet l next =
      let total = header_size + m.header.payload_len + 4 in
      let (tail, first) = on_header-header r.comm m.header v.ranges in
      let (rest, second, room) =
        on_body-frame now throws (record r.comm { read_buffer = header_bytes m.header ++ tail })
          m.header m.payload tail total v.ranges v.counted refl v.fits l.handled refl quiet in
      let r₁ : Reader = record {
        comm = record r.comm { read_buffer = header_bytes m.header ++ tail };
        phase = at_body total;
      } in
      let r₂ : Reader = record {
        comm = record r.comm { read_buffer = rest };
        phase = at_header header_size;
      } in
      let (r', es, runs, gives, listens) =
        next r₂ (record { waits = refl; handled = l.handled; room = room }) in
      (
        r',
        async_read_body total ∷ deliver (sealed m) ∷ async_read header_size ∷ es,
        one_read (suc k) r r₁ r' (header_bytes m.header) (rear m ++ more) left
            (async_read_body total ∷ []) (deliver (sealed m) ∷ async_read header_size ∷ es)
            (length-header_bytes m.header ∙ ap wanted (sym l.waits)) (rw (l.waits, first) refl)
            (one_read k r₁ r₂ r' (rear m) more left
              (deliver (sealed m) ∷ async_read header_size ∷ []) es (rear_size m v) (rw second refl)
              runs),
        ap (◌∷◌ (sealed m)) gives,
        listens,
      )

  Receives-all :
      (ms : List Message) (k : ℕ) (r : Reader) (left : List ℕ)
      → All IsSendable ms
      → All (λ m. throws (sealed m) ≡ false) ms
      → length left < header_size
      → IsListening r
      → Receives (reads ms k) r (bytes_of ms ++ left) left (all_sealed ms)
  unfolding Receives
  Receives-all [] k r left v q few l = (r, [], short_read k r left (rw l.waits few), refl, l)
  Receives-all (m ∷ ms) k r left v q few l =
      rw
        (
          append_assoc (header_bytes m.header ++ rear m) (bytes_of ms) left,
          append_assoc (header_bytes m.header) (rear m) (bytes_of ms ++ left),
        )
        (receive (reads ms k) r m (bytes_of ms ++ left) left (all_sealed ms) v.0 q.0 l
          (λ r' l'. Receives-all ms k r' left v.1 q.1 few l'))

  -- A connection that waits for the 23 bytes of a header, with a message handler that throws on none of
  -- the messages, gets the bytes of messages that were sent one after the other, and behind them fewer
  -- bytes than a header has. Each read takes as many bytes as it asked for. When twice as many reads may
  -- finish as there are messages, or more, the handler is given exactly the messages that were sent, in
  -- order, with their checksums filled in, the bytes behind them are left, and the connection waits for
  -- the next header.
  pub receive_stream :
      (ms : List Message) (k : ℕ) (r : Reader) (left : List ℕ)
      → All IsSendable ms
      → All (λ m. throws (sealed m) ≡ false) ms
      → 2 * length ms ≤ k
      → length left < header_size
      → IsListening r
      → (bytes : List ℕ) × (r' : Reader) × (es : List Effect) × (stream ms ≡ some bytes)
        × (run_reads k now throws r (bytes ++ left) ≡ some (r', es, left))
        × (delivered es ≡ all_sealed ms)
        × IsListening r'
  unfolding Receives
  receive_stream ms k r left v q h few l =
      let (r', es, runs, gives, listens) = Receives-all ms (k - 2 * length ms) r left v q few l in
      (
        bytes_of ms,
        r',
        es,
        stream-bytes ms v,
        ap (λ (n : ℕ). run_reads n now throws r (bytes_of ms ++ left)) (sym (enough_reads ms k h))
            ∙ runs,
        gives,
        listens,
      )
