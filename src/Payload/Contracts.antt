-- ===== src/Payload/Contracts.antt =====
-- The promises of IPayload.hpp for all six classes of src/core/message/payload/ at once.
use stradvision.Common.{
  ℕ, Bool-cases, IsU32, List, Result, fault, if◌then◌else◌, inl, inr, length, ltb, ltb→le, ltb→lt,
  ok, refl, throw, ◌≡◌,
}
use stradvision.Payload.{
  AckPayload, CmdSetModePayload, HeartbeatPayload, HelloPayload, NackPayload, StatePayload,
  ack_error, deserialize_ack, deserialize_heartbeat, deserialize_hello, deserialize_nack,
  deserialize_set_mode, deserialize_state, hello_error, nack_error, serialize_ack,
  serialize_heartbeat, serialize_hello, serialize_nack, serialize_set_mode, serialize_state,
  set_mode_error, state_error,
}
use stradvision.Payload.RoundTrip.{
  IsPayload, ValidHello, ValidState, ack-IsPayload, fresh_ack, fresh_hello, fresh_nack,
  fresh_set_mode, fresh_state, heartbeat-IsPayload, hello-IsPayload, nack-IsPayload,
  set_mode-IsPayload, state-IsPayload,
}

-- What each of the six payload classes writes it reads back into a fresh object, for integers of 32
-- bits, the floats as bit patterns, the signed return code, and a reason of any length, also none.
pub round_trip_all :
    (h : HelloPayload) (b : HeartbeatPayload) (st : StatePayload) (m : CmdSetModePayload)
    (a : AckPayload) (n : NackPayload)
    → ValidHello h
    → ValidState st
    → IsU32 m.mode
    → IsU32 a.cmd_id
    → IsU32 n.cmd_id
    → (deserialize_hello fresh_hello (serialize_hello h) ≡ ok h)
      × (deserialize_heartbeat (record {}) (serialize_heartbeat b) ≡ ok b)
      × (deserialize_state fresh_state (serialize_state st) ≡ ok st)
      × (deserialize_set_mode fresh_set_mode (serialize_set_mode m) ≡ ok m)
      × (deserialize_ack fresh_ack (serialize_ack a) ≡ ok a)
      × (deserialize_nack fresh_nack (serialize_nack n) ≡ ok n)
round_trip_all h b st m a n vh vs vm va vn = (
  hello-IsPayload.round_trip h vh,
  heartbeat-IsPayload.round_trip b tt,
  state-IsPayload.round_trip st vs,
  set_mode-IsPayload.round_trip m vm,
  ack-IsPayload.round_trip a va,
  nack-IsPayload.round_trip n vn,
)

-- Only whether a result is an object, and the error where it is not.
abbrev pub outcome {ℓ} : {A : Type ℓ} → Result A → Result (Unit {0})
outcome (ok a) = ok tt
outcome (throw e) = throw e
outcome fault = fault

-- The answer of a class that needs `size` bytes.
abbrev pub needs : ℕ → List ℕ → List ℕ → Result (Unit {0})
needs size error bytes = if ltb (length bytes) size then throw error else ok tt

IsPayload-needs :
    {P : Type 0} {Valid : P → Type 0} {size : ℕ} {error : List ℕ} {fresh : P}
    {serialize : P → List ℕ} {deserialize : P → List ℕ → Result P}
    → IsPayload Valid size error fresh serialize deserialize
    → (p : P) (bytes : List ℕ) → outcome (deserialize p bytes) ≡ needs size error bytes
IsPayload-needs {size = size} c p bytes = elim (Bool-cases (ltb (length bytes) size)) [
  | inl e ↦ rw (e, c.short p bytes (ltb→lt (length bytes) size e))
  | inr e ↦ rw (e, (c.long p bytes (ltb→le (length bytes) size e)).1)
]

-- Whatever the object and the bytes: a payload class raises its own error exactly when there are fewer
-- bytes than its size, 8, 0, 16, 4, 4 and 4, and otherwise fills the object. No byte behind the end is
-- read.
pub guards_all :
    (h : HelloPayload) (b : HeartbeatPayload) (st : StatePayload) (m : CmdSetModePayload)
    (a : AckPayload) (n : NackPayload) (bytes : List ℕ)
    → (outcome (deserialize_hello h bytes) ≡ needs 8 hello_error bytes)
      × (outcome (deserialize_heartbeat b bytes) ≡ ok tt)
      × (outcome (deserialize_state st bytes) ≡ needs 16 state_error bytes)
      × (outcome (deserialize_set_mode m bytes) ≡ needs 4 set_mode_error bytes)
      × (outcome (deserialize_ack a bytes) ≡ needs 4 ack_error bytes)
      × (outcome (deserialize_nack n bytes) ≡ needs 4 nack_error bytes)
unfolding deserialize_heartbeat
guards_all h b st m a n bytes = (
  IsPayload-needs hello-IsPayload h bytes,
  refl,
  IsPayload-needs state-IsPayload st bytes,
  IsPayload-needs set_mode-IsPayload m bytes,
  IsPayload-needs ack-IsPayload a bytes,
  IsPayload-needs nack-IsPayload n bytes,
)
