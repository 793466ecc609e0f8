-- ===== src/Store.antt =====
-- include/core/interface/IStateStore.hpp, include/controller/StateStore.hpp and
-- src/controller/StateStore.cpp. The float operations are the machine's: a parameter.
pub mod History
use stradvision.Comm.{is_empty}
use stradvision.Common.{ℕ, Bool, List, Option, [], if◌then◌else◌, length, none, pos, some, ◌∷◌}
use stradvision.Dict.{find, put}
use stradvision.Payload.{StatePayload}

-- Operations on 32-bit patterns of floats. `div_count` divides by a `size_t`, which is converted.
pub record FloatOps : Type 0 where
  pub add : ℕ → ℕ → ℕ
  pub div_count : ℕ → ℕ → ℕ
  pub gt : ℕ → ℕ → Bool
  pub lt : ℕ → ℕ → Bool

abbrev pub StateStore : Type 0
StateStore = List (ℕ × StatePayload)

-- `{}`: every field is zero.
abbrev pub no_state : StatePayload
no_state = record { mode = 0; load = 0; temp = 0; last_rc = pos 0 }

abbrev pub or_no_state : Option StatePayload → StatePayload
or_no_state none = no_state
or_no_state (some state) = state

unfoldable pub update_agent_state : ℕ → StatePayload → ℕ → StateStore → StateStore
update_agent_state agent_id state timestamp states = put agent_id state states

unfoldable pub get_agent_state : ℕ → StateStore → StatePayload
get_agent_state agent_id states = or_no_state (find agent_id states)

-- The loop of `getAggregateLoad`, with `total` so far.
unfoldable pub total_load : FloatOps → ℕ → StateStore → ℕ
total_load f total [] = total
total_load f total ((_, state) ∷ states) = total_load f (f.add total state.load) states

unfoldable pub get_aggregate_load : FloatOps → StateStore → ℕ
get_aggregate_load f states =
    if is_empty states then 0 else f.div_count (total_load f 0 states) (length states)
