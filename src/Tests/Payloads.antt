-- ===== src/Tests/Payloads.antt =====
-- The payload classes at concrete inputs.
use stradvision.Common.{ℕ, List, [], arith, negsuc, ok, replicate, ◌∷◌, ◌≡◌}
use stradvision.Payload.{
  AckPayload, CmdSetModePayload, HelloPayload, NackPayload, StatePayload, ack_error,
  deserialize_ack, deserialize_heartbeat, deserialize_hello, deserialize_nack, deserialize_set_mode,
  deserialize_state, hello_error, nack_error, serialize_ack, serialize_heartbeat, serialize_hello,
  serialize_nack, serialize_set_mode, serialize_state, set_mode_error, state_error,
}
use stradvision.Payload.Contracts.{guards_all, needs, outcome, round_trip_all}
use stradvision.Payload.RoundTrip.{fresh_ack, fresh_hello, fresh_nack, fresh_set_mode, fresh_state}

abbrev a_hello : HelloPayload
a_hello = record { agent_id = 7; version = 1 }

abbrev a_state : StatePayload
a_state = record { mode = 2; load = 5; temp = 6; last_rc = negsuc 3 }

abbrev a_set_mode : CmdSetModePayload
a_set_mode = record { mode = 4294967295 }

abbrev a_ack : AckPayload
a_ack = record { cmd_id = 9 }

abbrev a_nack : NackPayload
a_nack = record { cmd_id = 9; reason = 66 ∷ [] }

abbrev five_bytes : List ℕ
five_bytes = replicate 5 1

round_trip_all_example :
    (deserialize_hello fresh_hello (serialize_hello a_hello) ≡ ok a_hello)
    × (deserialize_heartbeat (record {}) (serialize_heartbeat (record {})) ≡ ok (record {}))
    × (deserialize_state fresh_state (serialize_state a_state) ≡ ok a_state)
    × (deserialize_set_mode fresh_set_mode (serialize_set_mode a_set_mode) ≡ ok a_set_mode)
    × (deserialize_ack fresh_ack (serialize_ack a_ack) ≡ ok a_ack)
    × (deserialize_nack fresh_nack (serialize_nack a_nack) ≡ ok a_nack)
round_trip_all_example =
    round_trip_all a_hello (record {}) a_state a_set_mode a_ack a_nack (omega arith, omega arith)
      (omega arith, omega arith, omega arith, omega arith) (omega arith) (omega arith) (omega arith)

guards_all_example :
    (outcome (deserialize_hello fresh_hello five_bytes) ≡ needs 8 hello_error five_bytes)
    × (outcome (deserialize_heartbeat (record {}) five_bytes) ≡ ok tt)
    × (outcome (deserialize_state fresh_state five_bytes) ≡ needs 16 state_error five_bytes)
    × (outcome (deserialize_set_mode fresh_set_mode five_bytes) ≡ needs 4 set_mode_error five_bytes)
    × (outcome (deserialize_ack fresh_ack five_bytes) ≡ needs 4 ack_error five_bytes)
    × (outcome (deserialize_nack fresh_nack five_bytes) ≡ needs 4 nack_error five_bytes)
guards_all_example =
    guards_all fresh_hello (record {}) fresh_state fresh_set_mode fresh_ack fresh_nack five_bytes
