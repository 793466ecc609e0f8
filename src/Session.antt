-- ===== src/Session.antt =====
-- include/controller/AgentTcpSession.hpp and src/controller/AgentTcpSession.cpp. Times are readings of the
-- steady clock in nanoseconds, which never go back. A `shared_ptr<Message>` is an address in a heap of
-- messages; what a call asks of the connection is its list of calls.
pub mod Checks
pub mod Backoff
pub mod Ack
pub mod Passes
pub mod Alias
pub mod Times
use stradvision.Comm.{is_empty}
use stradvision.Common.{
  ℕ, Bool, List, Option, [], false, if◌then◌else◌, leb, length, ltb, none, some, true, u32, u64,
  ◌&&◌, ◌++◌, ◌+◌, ◌-◌, ◌/◌, ◌<<<◌, ◌∷◌,
}
use stradvision.Dict.{erase, find, put}
use stradvision.Message.{Heap, Message, cmd_set_mode, message, store}
use stradvision.Metrics.{MetricsTracker}
use stradvision.Payload.{CmdSetModePayload, serialize_set_mode}

pub record PendingCommand : Type 0 where
  pub msg : ℕ
  pub last_send : ℕ
  pub retry_count : ℕ

-- Calls of the connection. `sends` carries the message as it is when it is serialised.
pub data Call : Type 0 where
  sends : Message → Call
  disconnects : Call
  flushes : Call

-- `has_conn` and `has_tracker` say whether `conn_` and `tracker_` are set.
pub record Session : Type 0 where
  pub has_conn : Bool
  pub id : ℕ
  pub last_heartbeat : ℕ
  pub pending_cmds : List (ℕ × PendingCommand)
  pub payload_set_mode : CmdSetModePayload
  pub msg_set_mode : ℕ
  pub has_tracker : Bool

abbrev pub nanos : ℕ
nanos = 1000000000

abbrev pub seconds_between : ℕ → ℕ → ℕ
seconds_between now before = (now - before) / nanos

abbrev pub milliseconds_between : ℕ → ℕ → ℕ
milliseconds_between now before = (now - before) / 1000000

-- `if (conn_) conn_->...`
abbrev pub on_conn : Session → Call → List Call
on_conn s call = if s.has_conn then call ∷ [] else []

-- The constructor, with the address of the message that it takes from the pool. The mode of
-- `payload_set_mode_` has no value yet, here 0, and is assigned before it is read.
unfoldable pub create : ℕ → ℕ → Bool → Bool → Heap → ℕ → Session × Heap
create now wall has_conn has_tracker heap p = (
  record {
    has_conn = has_conn;
    id = 0;
    last_heartbeat = now;
    pending_cmds = [];
    payload_set_mode = record { mode = 0 };
    msg_set_mode = p;
    has_tracker = has_tracker;
  },
  store heap p (message wall cmd_set_mode [] 0 0 0),
)

unfoldable pub send : Session → Heap → ℕ → List Call
send s heap msg = on_conn s (sends (heap msg))

unfoldable pub get_agent_id : Session → ℕ
get_agent_id s = s.id

unfoldable pub set_agent_id : Session → ℕ → Session
set_agent_id s id = record s { id = id }

-- `connected` is the connection's `isConnected()`.
unfoldable pub is_healthy : ℕ → Bool → Session → Bool
is_healthy now connected s =
    let connection_live = s.has_conn && connected in
    let heartbeat_ok = ltb (seconds_between now s.last_heartbeat) 3 in
    connection_live && heartbeat_ok

unfoldable pub disconnect : Session → Session × List Call
disconnect s = (record s { has_conn = false }, on_conn s disconnects)

unfoldable pub update_heartbeat : ℕ → Session → Session
update_heartbeat now s = record s { last_heartbeat = now }

-- The loop of `flushPendingCommands`.
unfoldable pub send_all : Session → Heap → List (ℕ × PendingCommand) → List Call
send_all s heap [] = []
send_all s heap ((_, pc) ∷ pending) = on_conn s (sends (heap pc.msg)) ++ send_all s heap pending

unfoldable pub flush_pending_commands : Session → Heap → Session × List Call
flush_pending_commands s heap =
    if is_empty s.pending_cmds
    then (s, on_conn s flushes)
    else (record s { pending_cmds = [] }, send_all s heap s.pending_cmds ++ on_conn s flushes)

unfoldable pub get_set_mode_msg : Session → Heap → ℕ → ℕ → Session × Heap × ℕ
get_set_mode_msg s heap mode header_id =
    let payload_set_mode = record s.payload_set_mode { mode = mode } in
    let payload = serialize_set_mode payload_set_mode in
    let old = heap s.msg_set_mode in
    let header = record old.header { header_id = header_id; payload_len = u32 (length payload) } in
    (
      record s { payload_set_mode = payload_set_mode },
      store heap s.msg_set_mode (record old { header = header; payload = payload }),
      s.msg_set_mode,
    )

-- `fetch_add` on the 64-bit counters
abbrev pub add_rtt : Bool → ℕ → MetricsTracker → MetricsTracker
add_rtt true rtt t = record t {
  total_rtt_ms = u64 (t.total_rtt_ms + rtt);
  rtt_samples = u64 (t.rtt_samples + 1);
}
add_rtt false rtt t = t

abbrev pub add_failure : Bool → MetricsTracker → MetricsTracker
add_failure true t = record t { command_failures = u64 (t.command_failures + 1) }
add_failure false t = t

abbrev pub acknowledge :
    ℕ → ℕ → Session → MetricsTracker → Option PendingCommand → Session × MetricsTracker
acknowledge now cmd_id s t none = (s, t)
acknowledge now cmd_id s t (some pc) = (
  record s { pending_cmds = erase cmd_id s.pending_cmds },
  add_rtt s.has_tracker (milliseconds_between now pc.last_send) t,
)

unfoldable pub handle_ack : ℕ → ℕ → Session → MetricsTracker → Session × MetricsTracker
handle_ack now cmd_id s t = acknowledge now cmd_id s t (find cmd_id s.pending_cmds)

unfoldable pub track_command : ℕ → Session → Heap → ℕ → Session
track_command now s heap msg =
    let pc : PendingCommand = record { msg = msg; last_send = now; retry_count = 0 } in
    record s { pending_cmds = put (heap msg).header.header_id pc s.pending_cmds }

abbrev pub max_retries : ℕ
max_retries = 5

-- What a round of the loop of `checkCommandTimeouts` does with its entry.
pub data Fate : Type 0 where
  waits : Fate
  resent : PendingCommand → Fate
  dropped : Fate

unfoldable pub check_command : ℕ → PendingCommand → Fate
check_command now pc =
    let wait_sec = 1 <<< pc.retry_count in
    if leb wait_sec (seconds_between now pc.last_send)
    then (if ltb pc.retry_count max_retries
        then resent (record pc { retry_count = pc.retry_count + 1; last_send = now })
        else dropped)
    else waits

pub record Checked : Type 0 where
  pub pending : List (ℕ × PendingCommand)
  pub calls : List Call
  pub tracker : MetricsTracker

abbrev pub settle : Session → Heap → ℕ × PendingCommand → Fate → Checked → Checked
settle s heap entry waits rest = record rest { pending = entry ∷ rest.pending }
settle s heap (k, pc) (resent pc') rest = record rest {
  pending = (k, pc') ∷ rest.pending;
  calls = on_conn s (sends (heap pc.msg)) ++ rest.calls;
}
settle s heap entry dropped rest = record rest { calls = on_conn s disconnects ++ rest.calls }

-- The failure is counted before the rounds that follow.
abbrev pub count_failure : Session → Fate → MetricsTracker → MetricsTracker
count_failure s waits t = t
count_failure s (resent pc) t = t
count_failure s dropped t = add_failure s.has_tracker t

unfoldable pub check_all : ℕ → Session → Heap → List (ℕ × PendingCommand) → MetricsTracker → Checked
check_all now s heap [] t = record { pending = []; calls = []; tracker = t }
check_all now s heap ((k, pc) ∷ pending) t =
    let fate = check_command now pc in
    settle s heap (k, pc) fate (check_all now s heap pending (count_failure s fate t))

unfoldable pub check_command_timeouts :
    ℕ → Session → Heap → MetricsTracker → Session × List Call × MetricsTracker
check_command_timeouts now s heap t =
    let done = check_all now s heap s.pending_cmds t in
    (record s { pending_cmds = done.pending }, done.calls, done.tracker)
