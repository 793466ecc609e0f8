-- ===== src/Controller/Gauge.antt =====
-- `active_connections`: what counts it up and down.
use stradvision.Common.{
  ℕ, Bool, Bool-cases, IsU32, List, Option, [], arith, false, inl, inr, length, none, refl, some,
  true, u32, ◌+◌, ◌∙◌, ◌∷◌, ◌≡◌, ◌≤◌,
}
use stradvision.Controller.{Controller, Entry, Sessions, healthy_entry}
use stradvision.Controller.Health.{check_entry, keep, sweep}
use stradvision.Message.{Heap}
use stradvision.Metrics.{MetricsTracker}
use stradvision.Pool.{MessagePool}
use stradvision.Session.{
  Checked, Fate, PendingCommand, Session, add_failure, check_all, check_command,
  check_command_timeouts, count_failure, dropped, resent, settle, waits,
}

abbrev pub gauge : Controller → ℕ
gauge c = c.tracker.active_connections

check_all-gauge :
    (now : ℕ) (s : Session) (heap : Heap) (d : List (ℕ × PendingCommand)) (t : MetricsTracker)
    → (check_all now s heap d t).tracker.active_connections ≡ t.active_connections
unfolding check_all
check_all-gauge now s heap [] t = refl
check_all-gauge now s heap ((k, pc) ∷ d) t =
    settled (check_command now pc) (check_all now s heap d (counted (check_command now pc)))
      (check_all-gauge now s heap d (counted (check_command now pc)) ∙ same (check_command now pc))
  where
    counted : Fate → MetricsTracker
    counted fate = count_failure s fate t

    same : (fate : Fate) → (counted fate).active_connections ≡ t.active_connections
    same waits = refl
    same (resent pc') = refl
    same dropped =
        elim s.has_tracker as (λ b. (add_failure b t).active_connections ≡ t.active_connections) [
          | true ↦ refl
          | false ↦ refl
        ]

    settled :
        (fate : Fate) (r : Checked)
        → r.tracker.active_connections ≡ t.active_connections
        → (settle s heap (k, pc) fate r).tracker.active_connections ≡ t.active_connections
    settled waits r e = e
    settled (resent pc') r e = e
    settled dropped r e = e

-- How many entries a round keeps.
abbrev kept_count : Option Entry → ℕ
kept_count none = 0
kept_count (some e) = 1

check_entry-gauge :
    (now : ℕ) (is_open : ℕ → Bool) (e : Entry) (t : MetricsTracker) (m : MessagePool)
    → let r = check_entry now is_open e t m in
      IsU32 t.active_connections
      → IsU32 r.tracker.active_connections
        × (u32 (r.tracker.active_connections + 1) ≡ u32 (t.active_connections + kept_count r.stays))
unfolding check_entry check_command_timeouts
check_entry-gauge now is_open e t m w = elim (Bool-cases (healthy_entry now is_open e)) [
  | inl h ↦
      let same = check_all-gauge now e.session m.heap e.session.pending_cmds t in
      rw h (omega (arith, same))
  | inr h ↦ rw h (omega arith)
]

kept_le : (o : Option Entry) → kept_count o ≤ 1
kept_le none = omega arith
kept_le (some e) = omega arith

length-keep :
    (k : ℕ) (o : Option Entry) (d : Sessions) → length (keep k o d) ≡ kept_count o + length d
length-keep k none d = omega arith
length-keep k (some e) d = omega arith

pub sweep-gauge :
    (now : ℕ) (is_open : ℕ → Bool) (d : Sessions) (t : MetricsTracker) (m : MessagePool)
    → IsU32 t.active_connections
    → let r = sweep now is_open d t m in
      IsU32 r.tracker.active_connections
      × (length r.kept ≤ length d)
      × (u32 (r.tracker.active_connections + length d) ≡ u32 (t.active_connections + length r.kept))
unfolding sweep
sweep-gauge now is_open [] t m w = omega arith
sweep-gauge now is_open ((k, e) ∷ d) t m w =
    let r = check_entry now is_open e t m in
    let (w', one) = check_entry-gauge now is_open e t m w in
    let rest = sweep now is_open d r.tracker r.messages in
    let (w'', le, all) = sweep-gauge now is_open d r.tracker r.messages w' in
    let kept = length-keep k r.stays rest.kept in omega (arith, kept_le r.stays)
