-- ===== src/Payload/RoundTrip.antt =====
-- What IPayload.hpp promises of each payload, and that every class keeps it.
use stradvision.Bytes.{read_float_be, read_u32_be, write_float_be}
use stradvision.Bytes.Sums.{bytes_u32, read_u32-bytes, read_u32_returns, write_u32-bytes}
use stradvision.Common.{
  IsI32, IsU32, List, Result, [], append_assoc, arith, drop, if◌then◌else◌, length, length-drop,
  le→ltb, ltb, lt→ltb, ok, pos, refl, some, throw, to_i32, to_i32-to_u32, to_u32, to_u32-lt, ℕ,
  ◌++◌, ◌+◌, ◌<◌, ◌∷◌, ◌≡◌, ◌≤◌,
}
use stradvision.Payload.{
  AckPayload, CmdSetModePayload, HelloPayload, NackPayload, StatePayload, ack_error,
  deserialize_ack, deserialize_heartbeat, deserialize_hello, deserialize_nack, deserialize_set_mode,
  deserialize_state, hello_error, nack_error, serialize_ack, serialize_heartbeat, serialize_hello,
  serialize_nack, serialize_set_mode, serialize_state, set_mode_error, state_error,
}

-- A payload's two operations: what is serialised is read back into a fresh object, too few bytes raise
-- the given error, and enough bytes are always read, without leaving the buffer.
pub record IsPayload {P : Type 0} (Valid : P → Type 0) (size : ℕ) (error : List ℕ) (fresh : P)
    (serialize : P → List ℕ) (deserialize : P → List ℕ → Result P) : Type 0 where
  pub round_trip : (p : P) → Valid p → deserialize fresh (serialize p) ≡ ok p
  pub at_least : (p : P) → size ≤ length (serialize p)
  pub short : (p : P) (bytes : List ℕ) → length bytes < size → deserialize p bytes ≡ throw error
  pub long : (p : P) (bytes : List ℕ) → size ≤ length bytes → (q : P) × (deserialize p bytes ≡ ok q)

abbrev pub ValidHello : HelloPayload → Type 0
ValidHello p = IsU32 p.agent_id × IsU32 p.version

abbrev pub ValidState : StatePayload → Type 0
ValidState p = IsU32 p.mode × IsU32 p.load × IsU32 p.temp × IsI32 p.last_rc

abbrev pub fresh_hello : HelloPayload
fresh_hello = record { agent_id = 0; version = 0 }

abbrev pub fresh_state : StatePayload
fresh_state = record { mode = 0; load = 0; temp = 0; last_rc = pos 0 }

abbrev pub fresh_set_mode : CmdSetModePayload
fresh_set_mode = record { mode = 0 }

abbrev pub fresh_ack : AckPayload
fresh_ack = record { cmd_id = 0 }

abbrev pub fresh_nack : NackPayload
fresh_nack = record { cmd_id = 0; reason = [] }

-- Reading at an offset that leaves four bytes.
read_at :
    (k : ℕ) (bytes : List ℕ)
    → k + 4 ≤ length bytes
    → (v : ℕ) × (read_u32_be (drop k bytes) ≡ some v)
read_at k bytes h = read_u32_returns (drop k bytes) (omega (arith, length-drop k bytes))

hello_bytes : (p : HelloPayload) → serialize_hello p ≡ bytes_u32 p.agent_id ++ bytes_u32 p.version
unfolding serialize_hello
hello_bytes p =
    rw (write_u32-bytes [] p.agent_id) (write_u32-bytes (bytes_u32 p.agent_id) p.version)

pub hello-IsPayload :
    IsPayload ValidHello 8 hello_error fresh_hello serialize_hello deserialize_hello
unfolding deserialize_hello
hello-IsPayload = record {
  round_trip = λ p v. rw (
    hello_bytes p,
    read_u32-bytes p.agent_id (bytes_u32 p.version) v.0,
    read_u32-bytes p.version [] v.1,
  );
  at_least = λ p. rw (hello_bytes p) (omega arith);
  short = λ p bytes h. rw (lt→ltb (length bytes) 8 h);
  long = λ p bytes h.
      let (a, ra) = read_at 0 bytes (omega arith) in
      let (b, rb) = read_at 4 bytes (omega arith) in
      (record p { agent_id = a; version = b }, rw (le→ltb (length bytes) 8 h, ra, rb));
}

pub heartbeat-IsPayload :
    IsPayload (λ _. Unit {0}) 0 [] (record {}) serialize_heartbeat deserialize_heartbeat
unfolding deserialize_heartbeat
heartbeat-IsPayload = record {
  round_trip = λ p v. refl;
  at_least = λ p. omega arith;
  short = λ p bytes h. absurd (omega arith);
  long = λ p bytes h. (p, refl);
}

state_bytes :
    (p : StatePayload)
    → serialize_state p
      ≡ bytes_u32 p.mode ++ (bytes_u32 p.load ++ (bytes_u32 p.temp ++ bytes_u32 (to_u32 p.last_rc)))
unfolding serialize_state write_float_be
state_bytes p = simp (write_u32-bytes, append_assoc)

pub state-IsPayload :
    IsPayload ValidState 16 state_error fresh_state serialize_state deserialize_state
unfolding deserialize_state read_float_be
state-IsPayload = record {
  round_trip = λ p v. rw (
    state_bytes p,
    read_u32-bytes p.mode _ v.0,
    read_u32-bytes p.load _ v.1,
    read_u32-bytes p.temp _ v.2,
    read_u32-bytes (to_u32 p.last_rc) [] (to_u32-lt p.last_rc),
    to_i32-to_u32 p.last_rc v.3,
  );
  at_least = λ p. rw (state_bytes p) (omega arith);
  short = λ p bytes h. rw (lt→ltb (length bytes) 16 h);
  long = λ p bytes h.
      let (a, ra) = read_at 0 bytes (omega arith) in
      let (b, rb) = read_at 4 bytes (omega arith) in
      let (c, rc) = read_at 8 bytes (omega arith) in
      let (d, rd) = read_at 12 bytes (omega arith) in
      (
        record { mode = a; load = b; temp = c; last_rc = to_i32 d },
        rw (le→ltb (length bytes) 16 h, ra, rb, rc, rd),
      );
}

pub set_mode-IsPayload :
    IsPayload
      (λ p. IsU32 p.mode)
      4
      set_mode_error
      fresh_set_mode
      serialize_set_mode
      deserialize_set_mode
unfolding serialize_set_mode deserialize_set_mode
set_mode-IsPayload = record {
  round_trip = λ p v. rw (write_u32-bytes [] p.mode, read_u32-bytes p.mode [] v);
  at_least = λ p. rw (write_u32-bytes [] p.mode) (omega arith);
  short = λ p bytes h. rw (lt→ltb (length bytes) 4 h);
  long = λ p bytes h.
      let (a, ra) = read_at 0 bytes h in (record { mode = a }, rw (le→ltb (length bytes) 4 h, ra));
}

pub ack-IsPayload :
    IsPayload (λ p. IsU32 p.cmd_id) 4 ack_error fresh_ack serialize_ack deserialize_ack
unfolding serialize_ack deserialize_ack
ack-IsPayload = record {
  round_trip = λ p v. rw (write_u32-bytes [] p.cmd_id, read_u32-bytes p.cmd_id [] v);
  at_least = λ p. rw (write_u32-bytes [] p.cmd_id) (omega arith);
  short = λ p bytes h. rw (lt→ltb (length bytes) 4 h);
  long = λ p bytes h.
      let (a, ra) = read_at 0 bytes h in
      (record { cmd_id = a }, rw (le→ltb (length bytes) 4 h, ra));
}

nack_bytes : (p : NackPayload) → serialize_nack p ≡ bytes_u32 p.cmd_id ++ p.reason
unfolding serialize_nack
nack_bytes p = rw (write_u32-bytes [] p.cmd_id)

-- An empty reason is read back too, since the object was fresh.
nack_round_trip :
    (n : ℕ) (reason : List ℕ)
    → IsU32 n
    → deserialize_nack fresh_nack (bytes_u32 n ++ reason)
      ≡ ok (record { cmd_id = n; reason = reason })
unfolding deserialize_nack
nack_round_trip n [] v = rw (read_u32-bytes n [] v)
nack_round_trip n (x ∷ reason) v =
    rw
      (
        le→ltb (length (bytes_u32 n ++ (x ∷ reason))) 4 (omega arith),
        read_u32-bytes n (x ∷ reason) v,
      )
      (rw (lt→ltb 4 (length (bytes_u32 n ++ (x ∷ reason))) (omega arith)))

pub nack-IsPayload :
    IsPayload (λ p. IsU32 p.cmd_id) 4 nack_error fresh_nack serialize_nack deserialize_nack
unfolding deserialize_nack
nack-IsPayload = record {
  round_trip = λ p v. rw (nack_bytes p) (nack_round_trip p.cmd_id p.reason v);
  at_least = λ p. rw (nack_bytes p) (omega arith);
  short = λ p bytes h. rw (lt→ltb (length bytes) 4 h);
  long = λ p bytes h.
      let (a, ra) = read_at 0 bytes h in
      (
        record { cmd_id = a; reason = if ltb 4 (length bytes) then drop 4 bytes else p.reason },
        rw (le→ltb (length bytes) 4 h, ra),
      );
}
