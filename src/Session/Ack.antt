-- ===== src/Session/Ack.antt =====
-- `handleAck` and `isHealthy`.
use stradvision.Common.{
  ℕ, ==_iff, Bool, Bool-cases, Option, arith, if◌then◌else◌, inl, inr, none, refl, some, true, ◌*◌,
  ◌-◌, ◌<◌, ◌==◌, ◌↔◌, ◌≡◌,
}
use stradvision.Dict.{find}
use stradvision.Dict.Laws.{find-erase}
use stradvision.Metrics.{MetricsTracker}
use stradvision.Session.{PendingCommand, Session, acknowledge, handle_ack, is_healthy, nanos}
use stradvision.Session.Checks.{IsValid}

acknowledge-find :
    (now id i : ℕ) (s : Session) (t : MetricsTracker) (found : Option PendingCommand)
    → IsValid s
    → find id s.pending_cmds ≡ found
    → find i (acknowledge now id s t found).0.pending_cmds
      ≡ (if id == i then none else find i s.pending_cmds)
acknowledge-find now id i s t none v e = elim (Bool-cases (id == i)) [
  | inl q ↦ let same : id ≡ i = (==_iff id i).0 q in rw (q, ← same) e
  | inr q ↦ rw q
]
acknowledge-find now id i s t (some pc) v e = find-erase 0 id i s.pending_cmds v.sorted

-- An acknowledgement removes the command with that id, if it is pending, and no other.
pub handle_ack-find :
    (now id i : ℕ) (s : Session) (t : MetricsTracker)
    → IsValid s
    → find i (handle_ack now id s t).0.pending_cmds
      ≡ (if id == i then none else find i s.pending_cmds)
unfolding handle_ack
handle_ack-find now id i s t v = acknowledge-find now id i s t (find id s.pending_cmds) v refl

-- A session is healthy exactly when it has a connection, the connection's socket is open, and less than
-- three seconds have passed since the last heartbeat.
pub is_healthy_iff :
    (now : ℕ) (connected : Bool) (s : Session)
    → (is_healthy now connected s ≡ true)
      ↔ ((s.has_conn ≡ true) × (connected ≡ true) × (now - s.last_heartbeat < 3 * nanos))
unfolding is_healthy
is_healthy_iff now connected s = ground arith
