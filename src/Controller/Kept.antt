-- ===== src/Controller/Kept.antt =====
-- The loops over the sessions in the timer's handler, and the invariant.
use mathlib.Core.Path.{subst}
use mathlib.Core.Option.{some-injective, none-ne-some}
use stradvision.Session.Checks
use stradvision.Common.{ℕ, Bool, Bool-cases, Option-cases, ap, inl, inr, refl, some, sym, ◌∙◌, ◌≡◌}
use stradvision.Controller.{Entry, Sessions, healthy_entry}
use stradvision.Controller.Health.{check_entry, command_all, command_entry, sweep}
use stradvision.Controller.Invariant.{AreValid, IsRegistered}
use stradvision.Controller.Rounds.{
  command_all-Sorted, commanded?, find-command_all, find-sweep, stays?, sweep-Sorted,
}
use stradvision.Dict.{Sorted, find}
use stradvision.Message.{Heap}
use stradvision.Metrics.{MetricsTracker}
use stradvision.Pool.{MessagePool}
use stradvision.Session.{Session, check_command_timeouts, get_set_mode_msg, track_command}
use stradvision.Session.Checks.{IsValid, apply, apply-IsValid, checks, makes, tracks}

-- A map that has only entries of another one, possibly changed in place.
pub part-AreValid :
    (n : ℕ) (d d' : Sessions)
    → AreValid n d
    → Sorted 0 d'
    → ((i : ℕ) (w : Entry)
        → find i d' ≡ some w
        → (e : Entry) × (find i d ≡ some e) × (w.sid ≡ e.sid) × IsRegistered n i w)
    → AreValid n d'
part-AreValid n d d' v s from = record {
  sorted = s;
  distinct = λ i j w w' f g same.
      let (e, fe, se, _) = from i w f in
      let (e', fe', se', _) = from j w' g in v.distinct i j e e' fe fe' (sym se ∙ same ∙ se');
  entries = λ i w f. (from i w f).3;
}

-- An entry with another state of its session.
pub changed-IsRegistered :
    (n k : ℕ) (e : Entry) (s : Session)
    → IsRegistered n k e
    → s.id ≡ e.session.id
    → s.has_conn ≡ e.session.has_conn
    → Checks.IsValid s
    → IsRegistered n k (record e { session = s })
changed-IsRegistered n k e s r i h v = record {
  numbered = r.numbered;
  named = i ∙ r.named;
  linked = h ∙ r.linked;
  commands = v;
}

checked-IsRegistered :
    (now n k : ℕ) (e : Entry) (heap : Heap) (t : MetricsTracker)
    → IsRegistered n k e
    → IsRegistered n k (record e { session = (check_command_timeouts now e.session heap t).0 })
checked-IsRegistered now n k e heap t r =
    changed-IsRegistered n k e _ r (unfold check_command_timeouts in refl)
      (unfold check_command_timeouts in refl)
      (unfold apply in apply-IsValid heap t e.session (checks now) r.commands)

check_entry-IsRegistered :
    (now n k : ℕ) (is_open : ℕ → Bool) (e w : Entry) (t : MetricsTracker) (m : MessagePool)
    → IsRegistered n k e
    → (check_entry now is_open e t m).stays ≡ some w
    → (w.sid ≡ e.sid) × IsRegistered n k w
unfolding check_entry
check_entry-IsRegistered now n k is_open e w t m r h =
    elim (Bool-cases (healthy_entry now is_open e)) [
      | inl q ↦
          let same : record e { session = (check_command_timeouts now e.session m.heap t).0 } ≡ w =
            some-injective _ _ (rw q at h) in
          (
            ap (λ (x : Entry). x.sid) (sym same),
            subst (IsRegistered n k) same (checked-IsRegistered now n k e m.heap t r),
          )
      | inr q ↦ absurd (none-ne-some _ (rw q at h))
    ]

pub sweep-AreValid :
    (now n : ℕ) (is_open : ℕ → Bool) (d : Sessions) (t : MetricsTracker) (m : MessagePool)
    → AreValid n d
    → AreValid n (sweep now is_open d t m).kept
sweep-AreValid now n is_open d t m v =
    part-AreValid n d _ v (sweep-Sorted now is_open 0 d t m v.sorted) λ i w f.
      elim (Option-cases (find i d)) [
        | inl e ↦ absurd (none-ne-some _ (sym (ap (stays? now is_open t m) e) ∙ kept i w f))
        | inr (x, e) ↦
            let (same, r) =
              check_entry-IsRegistered now n i is_open x w t m (v.entries i x e)
                (sym (ap (stays? now is_open t m) e) ∙ kept i w f) in
            (x, e, same, r)
      ]
  where
    kept :
        (i : ℕ) (w : Entry)
        → find i (sweep now is_open d t m).kept ≡ some w
        → stays? now is_open t m (find i d) ≡ some w
    kept i w f = sym (find-sweep now is_open i 0 d t t m m v.sorted) ∙ f

abbrev pub no_tracker : MetricsTracker
no_tracker = record {
  active_connections = 0;
  command_failures = 0;
  total_rtt_ms = 0;
  rtt_samples = 0;
}

pub command_entry-IsRegistered :
    (now n k mode id : ℕ) (is_open : ℕ → Bool) (e : Entry) (heap : Heap)
    → IsRegistered n k e
    → let w = (command_entry now is_open mode id e heap).0 in (w.sid ≡ e.sid) × IsRegistered n k w
unfolding command_entry
command_entry-IsRegistered now n k mode id is_open e heap r =
    elim (Bool-cases (healthy_entry now is_open e)) [
      | inl q ↦
          let (s, heap', msg) = get_set_mode_msg e.session heap mode id in
          let made : Checks.IsValid s =
            unfold apply in apply-IsValid heap no_tracker e.session (makes mode id) r.commands in
          let tracked : Checks.IsValid (track_command now s heap' msg) =
            unfold apply in apply-IsValid heap' no_tracker s (tracks now msg) made in
          rw q (
            refl,
            changed-IsRegistered n k e (track_command now s heap' msg) r
                (unfold track_command get_set_mode_msg in refl)
                (unfold track_command get_set_mode_msg in refl) tracked,
          )
      | inr q ↦ rw q (refl, r)
    ]

pub command_all-AreValid :
    (now n mode id : ℕ) (is_open : ℕ → Bool) (d : Sessions) (heap : Heap)
    → AreValid n d
    → AreValid n (command_all now is_open mode id d heap).entries
command_all-AreValid now n mode id is_open d heap v =
    part-AreValid n d _ v (command_all-Sorted now is_open mode id 0 d heap v.sorted) λ i w f.
      elim (Option-cases (find i d)) [
        | inl e ↦
            absurd (none-ne-some _ (sym (ap (commanded? now is_open mode id heap) e) ∙ sent i w f))
        | inr (x, e) ↦
            let (same, r) =
              command_entry-IsRegistered now n i mode id is_open x heap (v.entries i x e) in
            let is_w : (command_entry now is_open mode id x heap).0 ≡ w =
              some-injective _ _ (sym (ap (commanded? now is_open mode id heap) e) ∙ sent i w f) in
            (x, e, subst (λ y. y.sid ≡ x.sid) is_w same, subst (IsRegistered n i) is_w r)
      ]
  where
    sent :
        (i : ℕ) (w : Entry)
        → find i (command_all now is_open mode id d heap).entries ≡ some w
        → commanded? now is_open mode id heap (find i d) ≡ some w
    sent i w f = sym (find-command_all now is_open i mode id d heap heap) ∙ f
