-- ===== src/Controller/Order/Swept.antt =====
-- The session loop of the health check, session by session.
use mathlib.Core.List.{Permᴰ}
use stradvision.Common.{
  ℕ, Bool, Bool-cases, List, Option, [], ap, append-nil, append_assoc, inl, inr, none, refl, some,
  ◌++◌, ◌∙◌, ◌∷◌, ◌≡◌,
}
use stradvision.Common.Perms.{append-Perm, flat, flat-Perm}
use stradvision.Controller.{Entry, Sessions, healthy_entry, on_links}
use stradvision.Controller.Health.{Round, Sweep, check_entry, keep, sweep}
use stradvision.Controller.Order.Counted.{
  Commute, counted, counted-Commute, failed_or, failures, times,
}
use stradvision.Message.{Heap}
use stradvision.Metrics.{MetricsTracker}
use stradvision.Pool.{release}
use stradvision.Session.{
  Checked, Fate, PendingCommand, Session, add_failure, check_all, check_command,
  check_command_timeouts, count_failure, dropped, resent, settle, waits,
}

settle-tracker :
    (s : Session) (heap : Heap) (k : ℕ) (pc : PendingCommand) (fate : Fate) (z : Checked)
    (u v : MetricsTracker)
    → settle s heap (k, pc) fate (record z { tracker = u })
      ≡ record (settle s heap (k, pc) fate (record z { tracker = v })) { tracker = u }
settle-tracker s heap k pc waits z u v = refl
settle-tracker s heap k pc (resent pc') z u v = refl
settle-tracker s heap k pc dropped z u v = refl

count_failure-times :
    (s : Session) (n : ℕ) (fate : Fate) (t : MetricsTracker)
    → times n (add_failure s.has_tracker) (count_failure s fate t)
      ≡ times (failed_or fate n) (add_failure s.has_tracker) t
count_failure-times s n waits t = refl
count_failure-times s n (resent pc) t = refl
count_failure-times s n dropped t = refl

-- What a check keeps and sends does not depend on the counters.
check_all-tracker :
    (now : ℕ) (s : Session) (heap : Heap) (d : List (ℕ × PendingCommand)) (t u : MetricsTracker)
    → check_all now s heap d t ≡ record (check_all now s heap d u) {
      tracker = times (failures now d) (add_failure s.has_tracker) t;
    }
unfolding check_all
check_all-tracker now s heap [] t u = refl
check_all-tracker now s heap ((k, pc) ∷ d) t u =
    let fate = check_command now pc in
    let n = times (failures now d) (add_failure s.has_tracker) in
    let one = count_failure s fate in
    ap (settle s heap (k, pc) fate) (check_all-tracker now s heap d (one t) (one u))
    ∙ settle-tracker s heap k pc fate (check_all now s heap d (one u)) (n (one t))
        (check_all now s heap d (one u)).tracker
    ∙ ap (λ x. record (settle s heap (k, pc) fate (check_all now s heap d (one u))) { tracker = x })
        (count_failure-times s (failures now d) fate t)

module _ (now : ℕ) (is_open : ℕ → Bool) (heap : Heap) (any : MetricsTracker) where
  -- A round with an empty pool.
  round_of : Entry → Round
  round_of e = check_entry now is_open e any (record { pool = []; heap = heap })

  one_counted : ℕ × Entry → MetricsTracker → MetricsTracker
  one_counted x t =
      counted (healthy_entry now is_open x.1) (failures now x.1.session.pending_cmds)
        x.1.session.has_tracker t

  check_entry-parts :
      (x : ℕ × Entry) (t : MetricsTracker) (pool : List ℕ)
      → check_entry now is_open x.1 t (record { pool = pool; heap = heap }) ≡ record {
        stays = (round_of x.1).stays;
        calls = (round_of x.1).calls;
        tracker = one_counted x t;
        messages = record { pool = pool ++ (round_of x.1).messages.pool; heap = heap };
      }
  unfolding round_of one_counted check_entry check_command_timeouts release
  check_entry-parts x t pool = elim (Bool-cases (healthy_entry now is_open x.1)) [
    | inl h ↦
        rw (h, append-nil pool)
          (ap
            (λ (r : Checked). record {
              stays =
                  some (record x.1 { session = record x.1.session { pending_cmds = r.pending } });
              calls = on_links x.1.conn r.calls;
              tracker = r.tracker;
              messages = record { pool = pool; heap = heap };
            })
            (check_all-tracker now x.1.session heap x.1.session.pending_cmds t any))
    | inr h ↦ rw h
  ]

  one_counted-Commute : (x y : ℕ × Entry) → Commute (one_counted x) (one_counted y)
  unfolding one_counted
  one_counted-Commute x y =
      counted-Commute (healthy_entry now is_open x.1) (healthy_entry now is_open y.1)
        (failures now x.1.session.pending_cmds) (failures now y.1.session.pending_cmds)
        x.1.session.has_tracker y.1.session.has_tracker

  all_counted : Sessions → MetricsTracker → MetricsTracker
  all_counted [] t = t
  all_counted (x ∷ xs) t = all_counted xs (one_counted x t)

  all_counted-Perm :
      (xs ys : Sessions) (t : MetricsTracker) → Permᴰ xs ys → all_counted xs t ≡ all_counted ys t
  unfolding all_counted
  all_counted-Perm _ _ t Permᴰ.nil = refl
  all_counted-Perm _ _ t (Permᴰ.cons {b = b} {l₁ = l} {l₂ = l'} e d) =
      ap (λ x. all_counted l (one_counted x t)) e ∙ all_counted-Perm l l' (one_counted b t) d
  all_counted-Perm _ _ t (Permᴰ.swap {a = a} {b = b} {b' = b'} {l = l} e e') = ap (all_counted l) (
      one_counted-Commute b a t
      ∙ ap (λ x. one_counted x (one_counted b t)) e
      ∙ ap (λ x. one_counted b' (one_counted x t)) e')
  all_counted-Perm xs zs t (Permᴰ.trans {l₂ = ys} d d') =
      all_counted-Perm xs ys t d ∙ all_counted-Perm ys zs t d'

  one_kept : ℕ × Entry → Sessions
  one_kept x = keep x.0 (round_of x.1).stays []

  keep-append : (k : ℕ) (r : Option Entry) (xs : Sessions) → keep k r xs ≡ keep k r [] ++ xs
  keep-append k none xs = refl
  keep-append k (some e) xs = refl

  freed : ℕ × Entry → List ℕ
  freed x = (round_of x.1).messages.pool

  sweep-parts :
      (xs : Sessions) (t : MetricsTracker) (pool : List ℕ)
      → sweep now is_open xs t (record { pool = pool; heap = heap }) ≡ record {
        kept = flat one_kept xs;
        calls = flat (λ x. (round_of x.1).calls) xs;
        tracker = all_counted xs t;
        messages = record { pool = pool ++ flat freed xs; heap = heap };
      }
  unfolding sweep all_counted one_kept freed
  sweep-parts [] t pool = rw (append-nil pool) refl
  sweep-parts ((k, e) ∷ xs) t pool =
      ap
        (λ (r : Round).
          let rest = sweep now is_open xs r.tracker r.messages in
          record rest { kept = keep k r.stays rest.kept; calls = r.calls ++ rest.calls })
        (check_entry-parts (k, e) t pool)
      ∙ ap
          (λ (rest : Sweep). record rest {
            kept = keep k (round_of e).stays rest.kept;
            calls = (round_of e).calls ++ rest.calls;
          })
          (sweep-parts xs (one_counted (k, e) t) (pool ++ (round_of e).messages.pool))
      ∙ ap (λ ks. whole ks ((pool ++ freed (k, e)) ++ flat freed xs))
          (keep-append k (round_of e).stays (flat one_kept xs))
      ∙ ap (whole (one_kept (k, e) ++ flat one_kept xs))
          (append_assoc pool (freed (k, e)) (flat freed xs))
    where
      whole : Sessions → List ℕ → Sweep
      whole ks p = record {
        kept = ks;
        calls = (round_of e).calls ++ flat (λ x. (round_of x.1).calls) xs;
        tracker = all_counted xs (one_counted (k, e) t);
        messages = record { pool = p; heap = heap };
      }

  -- The sessions in another order, and the pool as well.
  pub sweep-Perm :
      (xs ys : Sessions) (t : MetricsTracker) (pool pool' : List ℕ)
      → Permᴰ xs ys
      → Permᴰ pool pool'
      → let a = sweep now is_open xs t (record { pool = pool; heap = heap }) in
        let b = sweep now is_open ys t (record { pool = pool'; heap = heap }) in
        Permᴰ a.kept b.kept
        × Permᴰ a.calls b.calls
        × Permᴰ a.messages.pool b.messages.pool
        × (a.tracker ≡ b.tracker)
        × (a.messages.heap ≡ b.messages.heap)
  sweep-Perm xs ys t pool pool' p q =
      rw (sweep-parts xs t pool, sweep-parts ys t pool')
        (
          flat-Perm one_kept p,
          flat-Perm (λ x. (round_of x.1).calls) p,
          append-Perm q (flat-Perm freed p),
          all_counted-Perm xs ys t p,
          refl,
        )
