-- ===== src/Tests/Sessions.antt =====
-- The session at concrete inputs.
use stradvision.Common.{ℕ, [], arith, if◌then◌else◌, none, refl, some, true, ◌*◌, ◌==◌, ◌∷◌, ◌≡◌}
use stradvision.Dict.{find}
use stradvision.Message.{Heap, Message, cmd_set_mode, message}
use stradvision.Metrics.{MetricsTracker}
use stradvision.Payload.{serialize_set_mode}
use stradvision.Session.{
  PendingCommand, Session, check_command_timeouts, disconnects, handle_ack, nanos, sends,
}
use stradvision.Session.Alias.{command, just_made, retry_sends_latest}
use stradvision.Session.Backoff.{IsGone, Lives, watch, watch_ends, watch_fresh}
use stradvision.Session.Checks.{IsValid, apply, apply-IsValid, checks}
use stradvision.Session.Passes.{check_command_timeouts_lem}
use stradvision.Session.Times.{sampled_once}

abbrev seconds : ℕ → ℕ
seconds n = n * nanos

-- Two commands: the first at its limit of resends, the second fresh.
abbrev pub busy : Session
busy = record {
  has_conn = true;
  id = 4;
  last_heartbeat = 0;
  pending_cmds =
      (1, record { msg = 0; last_send = 0; retry_count = 5 })
      ∷ (2, record { msg = 0; last_send = seconds 31; retry_count = 0 })
      ∷ [];
  payload_set_mode = record { mode = 0 };
  msg_set_mode = 0;
  has_tracker = true;
}

abbrev heap : Heap
heap p = message 0 cmd_set_mode [] 0 0 0

abbrev counters : MetricsTracker
counters = record {
  active_connections = 1;
  command_failures = 0;
  total_rtt_ms = 0;
  rtt_samples = 0;
}

busy-IsValid : IsValid busy
busy-IsValid = record {
  sorted = (omega arith, (omega arith, tt));
  bounded = (omega arith, (omega arith, tt));
}

abbrev fresh : PendingCommand
fresh = record { msg = 0; last_send = 0; retry_count = 0 }

watch_fresh_example : Lives 0 0 (watch (seconds 1 ∷ seconds 2 ∷ seconds 3 ∷ []) fresh)
watch_fresh_example =
    watch_fresh 0 0 (seconds 1 ∷ seconds 2 ∷ seconds 3 ∷ [])
      (omega arith, (omega arith, (omega arith, tt)))

watch_ends_example : IsGone (
    watch
      (seconds 32 ∷ seconds 64 ∷ seconds 96 ∷ seconds 128 ∷ seconds 160 ∷ seconds 192 ∷ [])
      fresh)
watch_ends_example =
    watch_ends (seconds 32 ∷ seconds 64 ∷ seconds 96 ∷ seconds 128 ∷ seconds 160 ∷ seconds 192 ∷ [])
      fresh (omega arith)
      (omega arith, (omega arith, (omega arith, (omega arith, (omega arith, (omega arith, tt))))))
      (omega arith)

apply-IsValid_example : IsValid (apply heap counters busy (checks (seconds 32)))
apply-IsValid_example = apply-IsValid heap counters busy (checks (seconds 32)) busy-IsValid

-- The first command is given up, and the second one is sent again.
check_command_timeouts_lem_example : check_command_timeouts (seconds 32) busy heap counters ≡ (
  record busy {
    pending_cmds = (2, record { msg = 0; last_send = seconds 32; retry_count = 1 }) ∷ [];
  },
  disconnects ∷ sends (heap 0) ∷ [],
  record counters { command_failures = 1 },
)
check_command_timeouts_lem_example =
    check_command_timeouts_lem (seconds 32) busy heap counters refl refl (omega arith)

sampled_once_example :
    let s₁ = (command (seconds 1) 3 12 (busy, heap)).0 in
    let (s₂, c₂) = handle_ack (seconds 3) 12 s₁ counters in
    (c₂ ≡ record counters { total_rtt_ms = 2000; rtt_samples = 1 })
    × (find 2 s₂.pending_cmds ≡ (if 12 == 2 then none else find 2 busy.pending_cmds))
    × (handle_ack (seconds 4) 12 s₂ c₂ ≡ (s₂, c₂))
sampled_once_example =
    sampled_once (seconds 1) (seconds 3) (seconds 4) 3 12 2 busy heap counters busy-IsValid refl

abbrev quiet : Session
quiet = record busy { pending_cmds = [] }

retry_sends_latest_example :
    let (s', heap') = command (seconds 4) 2 11 (command (seconds 3) 1 10 (quiet, heap)) in
    let (s'', calls, t') = check_command_timeouts (seconds 4) s' heap' counters in
    (m : Message) × (calls ≡ sends m ∷ [])
    × (m.header.header_id ≡ 11)
    × (m.payload ≡ serialize_set_mode (record { mode = 2 }))
    × (find 10 s''.pending_cmds ≡ some (record { msg = 0; last_send = seconds 4; retry_count = 1 }))
    × (find 11 s''.pending_cmds ≡ some (just_made (seconds 4) quiet))
retry_sends_latest_example =
    retry_sends_latest (seconds 3) (seconds 4) (seconds 4) 1 2 10 11 quiet heap counters
      (λ e. omega arith) refl refl (omega arith) refl (omega arith) (omega arith)
