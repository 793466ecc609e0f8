-- ===== src/Payload.antt =====
-- include/core/interface/IPayload.hpp, include/core/message/payload/ and src/core/message/payload/. The
-- object that `deserialize` fills is its first argument. A float is its bit pattern.
pub mod RoundTrip
pub mod Contracts
use stradvision.Bytes.{read_float_be, read_u32_be, write_float_be, write_u32_be}
use stradvision.Common.{
  List, Result, [], codes, drop, fault, if◌then◌else◌, length, ltb, ok, or_fault, throw, to_i32,
  to_u32, ℕ, ℤ, ◌++◌,
}

infixl 5 ◌>>=◌
abbrev pub ◌>>=◌ {ℓ κ} : {A : Type ℓ} {B : Type κ} → Result A → (A → Result B) → Result B
ok a >>= f = f a
throw e >>= f = throw e
fault >>= f = fault

pub record HelloPayload : Type 0 where
  pub agent_id : ℕ
  pub version : ℕ

pub record HeartbeatPayload : Type 0 where

pub record StatePayload : Type 0 where
  pub mode : ℕ
  pub load : ℕ
  pub temp : ℕ
  pub last_rc : ℤ

pub record CmdSetModePayload : Type 0 where
  pub mode : ℕ

pub record AckPayload : Type 0 where
  pub cmd_id : ℕ

pub record NackPayload : Type 0 where
  pub cmd_id : ℕ
  pub reason : List ℕ

abbrev pub hello_error : List ℕ
hello_error = codes "Invalid HelloPayload size"

abbrev pub state_error : List ℕ
state_error = codes "Invalid StatePayload size"

abbrev pub set_mode_error : List ℕ
set_mode_error = codes "Invalid CmdSetModePayload size"

abbrev pub ack_error : List ℕ
ack_error = codes "Invalid AckPayload size"

abbrev pub nack_error : List ℕ
nack_error = codes "Invalid NackPayload size"

unfoldable pub serialize_hello : HelloPayload → List ℕ
serialize_hello p = let buf = write_u32_be [] p.agent_id in write_u32_be buf p.version

unfoldable pub deserialize_hello : HelloPayload → List ℕ → Result HelloPayload
deserialize_hello p bytes = if ltb (length bytes) 8 then throw hello_error else do
  agent_id ← or_fault (read_u32_be bytes)
  version ← or_fault (read_u32_be (drop 4 bytes))
  ok (record p { agent_id = agent_id; version = version })

unfoldable pub serialize_heartbeat : HeartbeatPayload → List ℕ
serialize_heartbeat p = []

unfoldable pub deserialize_heartbeat : HeartbeatPayload → List ℕ → Result HeartbeatPayload
deserialize_heartbeat p bytes = ok p

unfoldable pub serialize_state : StatePayload → List ℕ
serialize_state p =
    let buf₁ = write_u32_be [] p.mode in
    let buf₂ = write_float_be buf₁ p.load in
    let buf₃ = write_float_be buf₂ p.temp in write_u32_be buf₃ (to_u32 p.last_rc)

unfoldable pub deserialize_state : StatePayload → List ℕ → Result StatePayload
deserialize_state p bytes = if ltb (length bytes) 16 then throw state_error else do
  mode ← or_fault (read_u32_be bytes)
  load ← or_fault (read_float_be (drop 4 bytes))
  temp ← or_fault (read_float_be (drop 8 bytes))
  last_rc ← or_fault (read_u32_be (drop 12 bytes))
  ok (record p { mode = mode; load = load; temp = temp; last_rc = to_i32 last_rc })

unfoldable pub serialize_set_mode : CmdSetModePayload → List ℕ
serialize_set_mode p = write_u32_be [] p.mode

unfoldable pub deserialize_set_mode : CmdSetModePayload → List ℕ → Result CmdSetModePayload
deserialize_set_mode p bytes =
    if ltb (length bytes) 4
    then throw set_mode_error
    else do mode ← or_fault (read_u32_be bytes); ok (record p { mode = mode })

unfoldable pub serialize_ack : AckPayload → List ℕ
serialize_ack p = write_u32_be [] p.cmd_id

unfoldable pub deserialize_ack : AckPayload → List ℕ → Result AckPayload
deserialize_ack p bytes =
    if ltb (length bytes) 4
    then throw ack_error
    else do cmd_id ← or_fault (read_u32_be bytes); ok (record p { cmd_id = cmd_id })

unfoldable pub serialize_nack : NackPayload → List ℕ
serialize_nack p = let buf = write_u32_be [] p.cmd_id in buf ++ p.reason

-- Without text the reason stays what it was.
unfoldable pub deserialize_nack : NackPayload → List ℕ → Result NackPayload
deserialize_nack p bytes = if ltb (length bytes) 4 then throw nack_error else do
  cmd_id ← or_fault (read_u32_be bytes)
  let reason = if ltb 4 (length bytes) then drop 4 bytes else p.reason
  ok (record p { cmd_id = cmd_id; reason = reason })
