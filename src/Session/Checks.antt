-- ===== src/Session/Checks.antt =====
-- `checkCommandTimeouts`: what a pass does with each pending command, and what every operation keeps.
use stradvision.Comm.{is_empty}
use stradvision.Common.{
  ℕ, Bool-cases, List, Option, [], arith, if◌then◌else◌, inl, inr, none, refl, some, suc, ◌+◌, ◌<◌,
  ◌==◌, ◌^◌, ◌∙◌, ◌∷◌, ◌≡◌, ◌≤◌, ◌⊎◌,
}
use stradvision.Dict.{Sorted, erase, find, put}
use stradvision.Dict.Laws.{Sorted-mono, erase-Sorted, find_below, put-Sorted}
use stradvision.Message.{Heap}
use stradvision.Metrics.{MetricsTracker}
use stradvision.Session.{
  Checked, Fate, PendingCommand, Session, acknowledge, check_all, check_command,
  check_command_timeouts, count_failure, disconnect, dropped, flush_pending_commands,
  get_set_mode_msg, handle_ack, max_retries, resent, seconds_between, set_agent_id, settle,
  track_command, update_heartbeat, waits,
}

-- What `check_command` does, in nanoseconds.
pub fate_cases :
    (now : ℕ) (pc : PendingCommand)
    → ((seconds_between now pc.last_send < 2 ^ pc.retry_count) × (check_command now pc ≡ waits))
      ⊎ ((2 ^ pc.retry_count ≤ seconds_between now pc.last_send)
          × (((pc.retry_count < max_retries)
                × (check_command now pc
                    ≡ resent (record pc { retry_count = pc.retry_count + 1; last_send = now })))
              ⊎ ((max_retries ≤ pc.retry_count) × (check_command now pc ≡ dropped))))
unfolding check_command
fate_cases now pc = ground arith

abbrev pub Bounded : List (ℕ × PendingCommand) → Type 0
Bounded [] = Unit {0}
Bounded ((k, pc) ∷ pending) = (pc.retry_count ≤ max_retries) × Bounded pending

pub put-Bounded :
    (k : ℕ) (pc : PendingCommand) (d : List (ℕ × PendingCommand))
    → pc.retry_count ≤ max_retries
    → Bounded d
    → Bounded (put k pc d)
unfolding put
put-Bounded k pc [] h b = (h, tt)
put-Bounded k pc ((j, w) ∷ d) h b = ground (arith, put-Bounded k pc d)

erase-Bounded : (k : ℕ) (d : List (ℕ × PendingCommand)) → Bounded d → Bounded (erase k d)
unfolding erase
erase-Bounded k [] b = tt
erase-Bounded k ((j, w) ∷ d) b = ground (arith, erase-Bounded k d)

-- What a pass makes of one command.
abbrev pub aged : Fate → PendingCommand → Option PendingCommand
aged waits pc = some pc
aged (resent pc') pc = some pc'
aged dropped pc = none

abbrev pub aged? : ℕ → Option PendingCommand → Option PendingCommand
aged? now none = none
aged? now (some pc) = aged (check_command now pc) pc

module _ (now : ℕ) (s : Session) (heap : Heap) where
  settle-Bounded :
      (k : ℕ) (pc : PendingCommand) (rest : Checked)
      → pc.retry_count ≤ max_retries
      → Bounded rest.pending
      → Bounded (settle s heap (k, pc) (check_command now pc) rest).pending
  settle-Bounded k pc rest h b = ground (arith, fate_cases now pc)

  check_all-Bounded :
      (d : List (ℕ × PendingCommand)) (t : MetricsTracker)
      → Bounded d
      → Bounded (check_all now s heap d t).pending
  unfolding check_all
  check_all-Bounded [] t b = tt
  check_all-Bounded ((k, pc) ∷ d) t b = settle-Bounded k pc _ b.0 (check_all-Bounded d _ b.1)

  settle-Sorted :
      (n k : ℕ) (pc : PendingCommand) (f : Fate) (rest : Checked)
      → n ≤ k
      → Sorted (suc k) rest.pending
      → Sorted n (settle s heap (k, pc) f rest).pending
  settle-Sorted n k pc waits rest h b = (h, b)
  settle-Sorted n k pc (resent pc') rest h b = (h, b)
  settle-Sorted n k pc dropped rest h b = Sorted-mono n (suc k) rest.pending (omega arith) b

  check_all-Sorted :
      (n : ℕ) (d : List (ℕ × PendingCommand)) (t : MetricsTracker)
      → Sorted n d
      → Sorted n (check_all now s heap d t).pending
  unfolding check_all
  check_all-Sorted n [] t b = tt
  check_all-Sorted n ((k, pc) ∷ d) t b =
      settle-Sorted n k pc (check_command now pc) _ b.0 (check_all-Sorted (suc k) d _ b.1)

  find-settle :
      (i k : ℕ) (pc : PendingCommand) (f : Fate) (rest : Checked)
      → find k rest.pending ≡ none
      → find i (settle s heap (k, pc) f rest).pending
        ≡ (if k == i then aged f pc else find i rest.pending)
  unfolding find
  find-settle i k pc waits rest e = refl
  find-settle i k pc (resent pc') rest e = refl
  find-settle i k pc dropped rest e = ground arith

  -- A pass over commands in the order of their ids does to each one what `check_command` decides from
  -- its own record alone: it stays, is resent, or goes away. No other entry changes it.
  pub find-check_all :
      (i n : ℕ) (d : List (ℕ × PendingCommand)) (t : MetricsTracker)
      → Sorted n d
      → find i (check_all now s heap d t).pending ≡ aged? now (find i d)
  unfolding check_all find
  find-check_all i n [] t b = refl
  find-check_all i n ((k, pc) ∷ d) t b =
      find-settle i k pc (check_command now pc) (check_all now s heap d t')
        (find_below (suc k) k _ (check_all-Sorted (suc k) d t' b.1) (omega arith))
      ∙ elim (Bool-cases (k == i)) [
        | inl e ↦ rw e
        | inr e ↦ rw e (find-check_all i (suc k) d t' b.1)
      ]
    where
      t' : MetricsTracker
      t' = count_failure s (check_command now pc) t

-- Between two calls the commands are in the order of their ids, each once, and no command has been
-- resent more than five times, so that `1 << retry_count` is at most 32.
pub record IsValid (s : Session) : Type 0 where
  pub sorted : Sorted 0 s.pending_cmds
  pub bounded : Bounded s.pending_cmds

-- The calls that change a session.
pub data Op : Type 0 where
  heartbeats : ℕ → Op
  names : ℕ → Op
  acks : ℕ → ℕ → Op
  tracks : ℕ → ℕ → Op
  checks : ℕ → Op
  makes : ℕ → ℕ → Op
  flushes_all : Op
  disconnects_all : Op

-- The session after a call, with the heap and the counters that the call finds.
unfoldable pub apply : Heap → MetricsTracker → Session → Op → Session
apply heap t s (heartbeats now) = update_heartbeat now s
apply heap t s (names id) = set_agent_id s id
apply heap t s (acks now id) = (handle_ack now id s t).0
apply heap t s (tracks now msg) = track_command now s heap msg
apply heap t s (checks now) = (check_command_timeouts now s heap t).0
apply heap t s (makes mode id) = (get_set_mode_msg s heap mode id).0
apply heap t s flushes_all = (flush_pending_commands s heap).0
apply heap t s disconnects_all = (disconnect s).0

pub acknowledge-IsValid :
    (now id : ℕ) (s : Session) (t : MetricsTracker) (found : Option PendingCommand)
    → IsValid s
    → IsValid (acknowledge now id s t found).0
acknowledge-IsValid now id s t none v = v
acknowledge-IsValid now id s t (some pc) v = record {
  sorted = erase-Sorted 0 id s.pending_cmds v.sorted;
  bounded = erase-Bounded id s.pending_cmds v.bounded;
}

flush-IsValid : (s : Session) (heap : Heap) → IsValid s → IsValid (flush_pending_commands s heap).0
unfolding flush_pending_commands
flush-IsValid s heap v = elim (Bool-cases (is_empty s.pending_cmds)) [
  | inl e ↦ rw e v
  | inr e ↦ rw e (record { sorted = tt; bounded = tt })
]

-- Every call keeps the pending commands in order, each id once, and every retry count at most five.
pub apply-IsValid :
    (heap : Heap) (t : MetricsTracker) (s : Session) (op : Op)
    → IsValid s
    → IsValid (apply heap t s op)
apply-IsValid heap t s (heartbeats now) v =
    unfold apply update_heartbeat in record { sorted = v.sorted; bounded = v.bounded }
apply-IsValid heap t s (names id) v =
    unfold apply set_agent_id in record { sorted = v.sorted; bounded = v.bounded }
apply-IsValid heap t s (acks now id) v =
    unfold apply handle_ack in acknowledge-IsValid now id s t (find id s.pending_cmds) v
apply-IsValid heap t s (tracks now msg) v =
    unfold apply track_command in
    record {
      sorted = put-Sorted 0 _ _ s.pending_cmds (omega arith) v.sorted;
      bounded = put-Bounded _ _ s.pending_cmds (omega arith) v.bounded;
    }
apply-IsValid heap t s (checks now) v =
    unfold apply check_command_timeouts in
    record {
      sorted = check_all-Sorted now s heap 0 s.pending_cmds t v.sorted;
      bounded = check_all-Bounded now s heap s.pending_cmds t v.bounded;
    }
apply-IsValid heap t s (makes mode id) v =
    unfold apply get_set_mode_msg in record { sorted = v.sorted; bounded = v.bounded }
apply-IsValid heap t s flushes_all v = unfold apply in flush-IsValid s heap v
apply-IsValid heap t s disconnects_all v =
    unfold apply disconnect in record { sorted = v.sorted; bounded = v.bounded }
