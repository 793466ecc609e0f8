-- ===== src/Controller/Rounds.antt =====
-- The loops of the health check over the sessions, entry by entry.
use stradvision.Common.{
  ℕ, ==_iff, Bool, Bool-cases, List, Option, [], ap, arith, eq→==, if◌then◌else◌, inl, inr, none,
  refl, some, suc, ◌<◌, ◌==◌, ◌∙◌, ◌∷◌, ◌≡◌, ◌≤◌,
}
use stradvision.Controller.{Entry, Sessions, healthy_entry}
use stradvision.Controller.Health.{check_entry, command_all, command_entry, keep, sweep}
use stradvision.Dict.{Sorted, find}
use stradvision.Dict.Laws.{Sorted-mono, find_below}
use stradvision.Message.{Heap}
use stradvision.Metrics.{MetricsTracker}
use stradvision.Pool.{MessagePool}
use stradvision.Session.{
  Checked, Fate, PendingCommand, Session, check_all, check_command, check_command_timeouts,
  count_failure, dropped, get_set_mode_msg, resent, settle, track_command, waits,
}

-- Which commands a pass leaves pending does not depend on the messages and counters that it finds.
check_all-pending :
    (now : ℕ) (s : Session) (heap heap' : Heap) (d : List (ℕ × PendingCommand))
    (t t' : MetricsTracker)
    → (check_all now s heap d t).pending ≡ (check_all now s heap' d t').pending
unfolding check_all
check_all-pending now s heap heap' [] t t' = refl
check_all-pending now s heap heap' ((k, pc) ∷ d) t t' =
    settled (check_command now pc)
      (check_all now s heap d (count_failure s (check_command now pc) t))
      (check_all now s heap' d (count_failure s (check_command now pc) t'))
      (check_all-pending now s heap heap' d (count_failure s (check_command now pc) t)
        (count_failure s (check_command now pc) t'))
  where
    settled :
        (f : Fate) (r r' : Checked)
        → r.pending ≡ r'.pending
        → (settle s heap (k, pc) f r).pending ≡ (settle s heap' (k, pc) f r').pending
    settled waits r r' e = ap (◌∷◌ (k, pc)) e
    settled (resent pc') r r' e = ap (◌∷◌ (k, pc')) e
    settled dropped r r' e = e

check_entry-stays :
    (now : ℕ) (is_open : ℕ → Bool) (e : Entry) (t t' : MetricsTracker) (m m' : MessagePool)
    → (check_entry now is_open e t m).stays ≡ (check_entry now is_open e t' m').stays
unfolding check_entry check_command_timeouts
check_entry-stays now is_open e t t' m m' = elim (Bool-cases (healthy_entry now is_open e)) [
  | inl h ↦ rw (h, check_all-pending now e.session m.heap m'.heap e.session.pending_cmds t t')
  | inr h ↦ rw h
]

-- What the session loop makes of one entry, if there is one.
abbrev pub stays? : ℕ → (ℕ → Bool) → MetricsTracker → MessagePool → Option Entry → Option Entry
stays? now is_open t m none = none
stays? now is_open t m (some e) = (check_entry now is_open e t m).stays

find-keep :
    (i k n : ℕ) (o : Option Entry) (d : Sessions)
    → Sorted n d
    → k < n
    → find i (keep k o d) ≡ (if k == i then o else find i d)
unfolding find
find-keep i k n none d s l = elim (Bool-cases (k == i)) [
  | inl e ↦ rw e (find_below n i d s (omega (arith, (==_iff k i).0 e)))
  | inr e ↦ rw e
]
find-keep i k n (some e) d s l = refl

keep-Sorted :
    (n k : ℕ) (o : Option Entry) (d : Sessions) → n ≤ k → Sorted (suc k) d → Sorted n (keep k o d)
keep-Sorted n k none d l s = Sorted-mono n (suc k) d (omega arith) s
keep-Sorted n k (some e) d l s = (l, s)

module _ (now : ℕ) (is_open : ℕ → Bool) where
  pub sweep-Sorted :
      (n : ℕ) (d : Sessions) (t : MetricsTracker) (m : MessagePool)
      → Sorted n d
      → Sorted n (sweep now is_open d t m).kept
  unfolding sweep
  sweep-Sorted n [] t m s = tt
  sweep-Sorted n ((k, e) ∷ d) t m s =
      keep-Sorted n k (check_entry now is_open e t m).stays _ s.0 (sweep-Sorted (suc k) d _ _ s.1)

  -- The session loop treats every session by itself: what becomes of it is what one round makes of it,
  -- whatever the rounds before it did to the counters and the messages.
  pub find-sweep :
      (i n : ℕ) (d : Sessions) (t t' : MetricsTracker) (m m' : MessagePool)
      → Sorted n d
      → find i (sweep now is_open d t m).kept ≡ stays? now is_open t' m' (find i d)
  unfolding sweep find
  find-sweep i n [] t t' m m' s = refl
  find-sweep i n ((k, e) ∷ d) t t' m m' s =
      let r = check_entry now is_open e t m in
      find-keep i k (suc k) r.stays (sweep now is_open d r.tracker r.messages).kept
        (sweep-Sorted (suc k) d r.tracker r.messages s.1) (omega arith)
      ∙ elim (Bool-cases (k == i)) [
        | inl q ↦ rw q (check_entry-stays now is_open e t t' m m')
        | inr q ↦ rw q (find-sweep i (suc k) d r.tracker t' r.messages m' s.1)
      ]

  -- The entry after a mode command, if there is one.
  abbrev pub commanded? : ℕ → ℕ → Heap → Option Entry → Option Entry
  commanded? mode id heap none = none
  commanded? mode id heap (some e) = some (command_entry now is_open mode id e heap).0

  command_entry-entry :
      (mode id : ℕ) (e : Entry) (heap heap' : Heap)
      → (command_entry now is_open mode id e heap).0 ≡ (command_entry now is_open mode id e heap').0
  unfolding command_entry get_set_mode_msg track_command
  command_entry-entry mode id e heap heap' = elim (Bool-cases (healthy_entry now is_open e)) [
    | inl h ↦ rw (h, eq→== e.session.msg_set_mode e.session.msg_set_mode refl)
    | inr h ↦ rw h
  ]

  pub command_all-Sorted :
      (mode id n : ℕ) (d : Sessions) (heap : Heap)
      → Sorted n d
      → Sorted n (command_all now is_open mode id d heap).entries
  unfolding command_all
  command_all-Sorted mode id n [] heap s = tt
  command_all-Sorted mode id n ((k, e) ∷ d) heap s =
      (s.0, command_all-Sorted mode id (suc k) d _ s.1)

  -- So does the loop that sends a mode command.
  pub find-command_all :
      (i mode id : ℕ) (d : Sessions) (heap heap' : Heap)
      → find i (command_all now is_open mode id d heap).entries
        ≡ commanded? mode id heap' (find i d)
  unfolding command_all find
  find-command_all i mode id [] heap heap' = refl
  find-command_all i mode id ((k, e) ∷ d) heap heap' = elim (Bool-cases (k == i)) [
    | inl q ↦ rw q (ap some (command_entry-entry mode id e heap heap'))
    | inr q ↦ rw q (find-command_all i mode id d _ heap')
  ]
