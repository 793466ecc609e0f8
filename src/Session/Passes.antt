-- ===== src/Session/Passes.antt =====
-- A pass of `checkCommandTimeouts` over the pending commands, from their times and counts alone.
use stradvision.Common.{
  ℕ, Bool, Bool-cases, IsU64, List, [], ap, arith, if◌then◌else◌, inl, inr, leb, ltb, not, refl,
  true, ◌%◌, ◌&&◌, ◌*◌, ◌++◌, ◌+◌, ◌-◌, ◌/◌, ◌^◌, ◌∙◌, ◌∷◌, ◌≡◌,
}
use stradvision.Common.Perms.{flat}
use stradvision.Message.{Heap}
use stradvision.Metrics.{MetricsTracker}
use stradvision.Session.{
  Call, Checked, Fate, PendingCommand, Session, check_all, check_command, check_command_timeouts,
  count_failure, disconnects, dropped, resent, sends, settle, waits,
}

-- The wait of a command is over after 2 ^ retry_count whole seconds.
abbrev pub is_due : ℕ → PendingCommand → Bool
is_due now pc = leb (2 ^ pc.retry_count) ((now - pc.last_send) / 1000000000)

abbrev pub may_retry : PendingCommand → Bool
may_retry pc = ltb pc.retry_count 5

-- The entry of a command after a pass.
abbrev pub renewed : ℕ → ℕ × PendingCommand → List (ℕ × PendingCommand)
renewed now (k, pc) =
    if is_due now pc
    then (if may_retry pc
        then (k, record pc { retry_count = pc.retry_count + 1; last_send = now }) ∷ []
        else [])
    else (k, pc) ∷ []

-- What a pass asks of the connection for a command.
abbrev pub asked : ℕ → Heap → ℕ × PendingCommand → List Call
asked now heap (k, pc) =
    if is_due now pc
    then (if may_retry pc then sends (heap pc.msg) ∷ [] else disconnects ∷ [])
    else []

-- The commands that a pass gives up.
abbrev pub given_up : ℕ → List (ℕ × PendingCommand) → ℕ
given_up now [] = 0
given_up now ((k, pc) ∷ d) = (if is_due now pc && not (may_retry pc) then 1 else 0) + given_up now d

abbrev fate_of : ℕ → PendingCommand → Fate
fate_of now pc =
    if is_due now pc
    then (if may_retry pc
        then resent (record pc { retry_count = pc.retry_count + 1; last_send = now })
        else dropped)
    else waits

check_command-fate : (now : ℕ) (pc : PendingCommand) → check_command now pc ≡ fate_of now pc
unfolding check_command
check_command-fate now pc =
    ap
      (λ (n : ℕ).
        if leb n ((now - pc.last_send) / 1000000000)
        then (if may_retry pc
            then resent (record pc { retry_count = pc.retry_count + 1; last_send = now })
            else dropped)
        else waits)
      (once (2 ^ pc.retry_count))
  where
    once : (n : ℕ) → 1 * n ≡ n
    once n = omega arith

-- The counters after so many commands were given up.
abbrev failed : ℕ → MetricsTracker → MetricsTracker
failed n t = record t { command_failures = (t.command_failures + n) % 2 ^ 64 }

settle-parts :
    (s : Session) (heap : Heap) (now k : ℕ) (pc : PendingCommand) (ps : List (ℕ × PendingCommand))
    (cs : List Call) (t : MetricsTracker)
    → s.has_conn ≡ true
    → settle s heap (k, pc) (fate_of now pc) (record { pending = ps; calls = cs; tracker = t })
      ≡ record {
        pending = renewed now (k, pc) ++ ps;
        calls = asked now heap (k, pc) ++ cs;
        tracker = t;
      }
settle-parts s heap now k pc ps cs t h = elim (Bool-cases (is_due now pc)) [
  | inl d ↦ elim (Bool-cases (may_retry pc)) [
    | inl m ↦ rw (d, m, h) refl
    | inr m ↦ rw (d, m, h) refl
  ]
  | inr d ↦ rw d refl
]

count_failure-failed :
    (s : Session) (now k : ℕ) (pc : PendingCommand) (d : List (ℕ × PendingCommand))
    (t : MetricsTracker)
    → s.has_tracker ≡ true
    → IsU64 t.command_failures
    → IsU64 (count_failure s (fate_of now pc) t).command_failures
      × (failed (given_up now d) (count_failure s (fate_of now pc) t)
          ≡ failed (given_up now ((k, pc) ∷ d)) t)
count_failure-failed s now k pc d t h v = elim (Bool-cases (is_due now pc)) [
  | inl e ↦ elim (Bool-cases (may_retry pc)) [
    | inl m ↦ rw (e, m) (v, none_failed)
    | inr m ↦ rw (e, m, h) (omega arith, one_failed)
  ]
  | inr e ↦ rw e (v, none_failed)
]
  where
    g : ℕ
    g = given_up now d

    none_failed : failed g t ≡ failed (0 + g) t
    none_failed = ap (λ (x : ℕ). failed x t) (omega arith)

    one_failed :
        failed g (record t { command_failures = (t.command_failures + 1) % 2 ^ 64 })
        ≡ failed (1 + g) t
    one_failed = ap (λ (x : ℕ). record t { command_failures = x }) (omega arith)

check_all-parts :
    (now : ℕ) (s : Session) (heap : Heap) (d : List (ℕ × PendingCommand)) (t : MetricsTracker)
    → s.has_conn ≡ true
    → s.has_tracker ≡ true
    → IsU64 t.command_failures
    → check_all now s heap d t ≡ record {
      pending = flat (renewed now) d;
      calls = flat (asked now heap) d;
      tracker = failed (given_up now d) t;
    }
unfolding check_all
check_all-parts now s heap [] t hc ht v =
    ap (λ (x : ℕ). record { pending = []; calls = []; tracker = record t { command_failures = x } })
      (omega arith)
check_all-parts now s heap ((k, pc) ∷ d) t hc ht v =
    let (v', same) = count_failure-failed s now k pc d t ht v in
    rw (check_command-fate now pc) (
      ap (settle s heap (k, pc) (fate_of now pc))
        (check_all-parts now s heap d (count_failure s (fate_of now pc) t) hc ht v')
      ∙ settle-parts s heap now k pc _ _ _ hc
      ∙ ap
          (λ (u : MetricsTracker). record {
            pending = renewed now (k, pc) ++ flat (renewed now) d;
            calls = asked now heap (k, pc) ++ flat (asked now heap) d;
            tracker = u;
          })
          same)

-- A pass over the commands of a session with a connection and counters. In the order of the ids: a command
-- whose last send is less than 2 ^ retry_count whole seconds ago stays as it is; any other is sent again,
-- with the time and one more retry noted, if it has less than five retries, and otherwise is given up, the
-- connection is closed and one failure is counted, modulo 2 ^ 64. Nothing else is sent or changed.
pub check_command_timeouts_lem :
    (now : ℕ) (s : Session) (heap : Heap) (t : MetricsTracker)
    → s.has_conn ≡ true
    → s.has_tracker ≡ true
    → IsU64 t.command_failures
    → check_command_timeouts now s heap t ≡ (
      record s { pending_cmds = flat (renewed now) s.pending_cmds },
      flat (asked now heap) s.pending_cmds,
      record t { command_failures = (t.command_failures + given_up now s.pending_cmds) % 2 ^ 64 },
    )
unfolding check_command_timeouts
check_command_timeouts_lem now s heap t hc ht v =
    ap (λ (r : Checked). (record s { pending_cmds = r.pending }, r.calls, r.tracker))
      (check_all-parts now s heap s.pending_cmds t hc ht v)
