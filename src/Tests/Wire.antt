-- ===== src/Tests/Wire.antt =====
-- The messages of tests/src/MessageParserTest.cpp and PayloadTest.cpp, on the wire.
use stradvision.Bytes.{read_u32_be, write_u16_be, write_u32_be, write_u64_be}
use stradvision.Common.{
  ℕ, List, [], arith, codes, inl, length, none, refl, some, ◌++◌, ◌+◌, ◌<◌, ◌^◌, ◌∷◌, ◌≡◌, ◌≢◌,
}
use stradvision.Crc.{compute_crc32, crc_bit, crc_bits, crc_byte, crc_loop}
use stradvision.Crc.Detects.{crc32-detects}
use stradvision.Crc.Fold.{crc32}
use stradvision.Message.{Header, Message, header_size, hello}
use stradvision.Parser.{
  Outcome, crc_mismatch, deserialize, incomplete, parsed, serialize, write_body,
}
use stradvision.Parser.Corruption.{deserialize_prefix, deserialize_tampered}
use stradvision.Parser.Frame.{body, header_bytes}
use stradvision.Parser.RoundTrip.{IsSendable, deserialize-serialize}
use stradvision.Parser.Safety.{Answers, deserialize-Answers, deserialize_wraps}
use stradvision.Payload.{serialize_hello}

-- The check value of CRC-32: the checksum of the text "123456789".
crc_check_value : compute_crc32 (codes "123456789") 9 ≡ some 0xCBF43926
unfolding compute_crc32 crc_loop crc_byte crc_bits crc_bit
crc_check_value = refl

abbrev pub hello_header : Header
hello_header = record {
  type = hello;
  agent_id = 100;
  header_id = 1234;
  timestamp = 0x1_0000_0002;
  payload_len = 8;
  flags = 0;
}

abbrev pub hello_message : Message
hello_message = record {
  header = hello_header;
  payload = 0 ∷ 0 ∷ 0 ∷ 100 ∷ 0 ∷ 0 ∷ 0 ∷ 1 ∷ [];
  crc32 = 0;
}

hello_payload : serialize_hello (record { agent_id = 100; version = 1 }) ≡ hello_message.payload
unfolding serialize_hello write_u32_be
hello_payload = refl

pub hello-IsSendable : IsSendable hello_message
hello-IsSendable = record { ranges = omega arith; counted = refl; fits = omega arith }

abbrev hello_front : List ℕ
hello_front =
    0 ∷ 0 ∷ 0 ∷ 8 ∷ 0 ∷ 1 ∷ 0 ∷ 0 ∷ 0 ∷ 0 ∷ 100 ∷ 0 ∷ 0 ∷ 4 ∷ 210 ∷ 0 ∷ 0 ∷ 0 ∷ 1 ∷ 0 ∷ 0 ∷ 0 ∷ 2
    ∷ []

abbrev hello_rest : List ℕ
hello_rest = 0 ∷ 0 ∷ 0 ∷ 100 ∷ 0 ∷ 0 ∷ 0 ∷ 1 ∷ 53 ∷ 177 ∷ 238 ∷ 229 ∷ []

hello_frame : serialize hello_message ≡ some (hello_front ++ hello_rest)
unfolding serialize write_body write_u32_be write_u16_be write_u64_be compute_crc32 crc_loop
    crc_byte crc_bits crc_bit
hello_frame = refl

crc32-detects_example :
    crc32 ((1 ∷ 2 ∷ []) ++ ((3 ∷ 4 ∷ 5 ∷ []) ++ (6 ∷ [])))
    ≢ crc32 ((1 ∷ 2 ∷ []) ++ ((7 ∷ 4 ∷ 0 ∷ []) ++ (6 ∷ [])))
crc32-detects_example =
    crc32-detects (1 ∷ 2 ∷ []) (3 ∷ 4 ∷ 5 ∷ []) (7 ∷ 4 ∷ 0 ∷ []) (6 ∷ []) (omega arith)
      (omega arith) (omega arith) (omega arith) refl (omega arith) (λ e. ground arith)

deserialize-serialize_example :
    (bs : List ℕ) × (serialize hello_message ≡ some bs)
    × (deserialize 5 (bs ++ (1 ∷ 2 ∷ []))
        ≡ some (
            parsed
              (record hello_message {
                crc32 = crc32 (body hello_message.header hello_message.payload);
              })
              (length bs)))
deserialize-serialize_example = deserialize-serialize 5 hello_message (1 ∷ 2 ∷ []) hello-IsSendable

-- `encoded[13] ^= 0xFF` of the repository's test.
deserialize_tampered_example :
    deserialize 5 (
      ((0 ∷ 0 ∷ 0 ∷ 8 ∷ 0 ∷ 1 ∷ 0 ∷ 0 ∷ 0 ∷ 0 ∷ 100 ∷ 0 ∷ 0 ∷ [])
        ++ ((251 ∷ 9 ∷ []) ++ (0 ∷ 0 ∷ 0 ∷ 1 ∷ 0 ∷ 0 ∷ 0 ∷ 2 ∷ hello_rest)))
      ++ [])
    ≡ some crc_mismatch
deserialize_tampered_example =
    deserialize_tampered 5 hello_message (0 ∷ 0 ∷ 0 ∷ 8 ∷ 0 ∷ 1 ∷ 0 ∷ 0 ∷ 0 ∷ 0 ∷ 100 ∷ 0 ∷ 0 ∷ [])
      (4 ∷ 210 ∷ []) (251 ∷ 9 ∷ []) (0 ∷ 0 ∷ 0 ∷ 1 ∷ 0 ∷ 0 ∷ 0 ∷ 2 ∷ hello_rest) [] hello-IsSendable
      (omega arith) hello_frame (omega arith) (omega arith) refl (omega arith) (λ e. ground arith)
      (inl (omega arith))

deserialize_prefix_example : deserialize 5 hello_front ≡ some incomplete
deserialize_prefix_example =
    deserialize_prefix 5 hello_message hello_front
      (0 ∷ 0 ∷ 100 ∷ 0 ∷ 0 ∷ 0 ∷ 1 ∷ 53 ∷ 177 ∷ 238 ∷ 229 ∷ []) 0 hello-IsSendable hello_frame

hello_announces : (n : ℕ) → read_u32_be hello_front ≡ some n → header_size + n + 4 < 2 ^ 32
unfolding read_u32_be
hello_announces n e = ground arith

deserialize-Answers_example :
    (o : Outcome) × (deserialize 5 hello_front ≡ some o) × Answers hello_front o
deserialize-Answers_example = deserialize-Answers 5 hello_front (omega arith) hello_announces

abbrev wrapping_header : Header
wrapping_header = record hello_header { payload_len = 0xFFFFFFF0 }

deserialize_wraps_example :
    deserialize 5 (header_bytes wrapping_header ++ (1 ∷ 2 ∷ 3 ∷ 4 ∷ [])) ≡ none
deserialize_wraps_example =
    deserialize_wraps 5 wrapping_header (1 ∷ 2 ∷ 3 ∷ 4 ∷ []) (omega arith) (omega arith)
      (omega arith) (omega arith)
