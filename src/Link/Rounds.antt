-- ===== src/Link/Rounds.antt =====
-- A check of the timeouts, for the session of a link.
use stradvision.Session.Checks
use mathlib.Core.Option.{none-ne-some, some-injective}
use stradvision.Comm.Stream.{sealed}
use stradvision.Common.{
  ℕ, ==_iff, All, All-append, Bool-cases, List, [], ap, append_assoc, if_both, inl, inr, ltb, refl,
  some, sym, ◌++◌, ◌==◌, ◌∙◌, ◌∷◌, ◌≡◌, ◌⊎◌,
}
use stradvision.Controller.{ControllerCall, on_link, on_links}
use stradvision.Dict.{erase, find, put}
use stradvision.Link.{carried, gone, gone_with, sent_down}
use stradvision.Link.Invariant.{Among}
use stradvision.Message.{Heap, Message}
use stradvision.Metrics.{MetricsTracker}
use stradvision.Session.{
  Call, Checked, Fate, PendingCommand, Session, check_all, check_command, count_failure,
  disconnects, dropped, on_conn, resent, sends, settle, waits,
}
use stradvision.Session.Checks.{IsValid, aged, aged?, fate_cases, find-check_all}

module _ {V : Type 0} (P : ℕ × V → Type 0) where
  pub All-put : (k : ℕ) (v : V) (d : List (ℕ × V)) → P (k, v) → All P d → All P (put k v d)
  unfolding put
  All-put k v [] p h = (p, tt)
  All-put k v ((j, w) ∷ d) p h =
      if_both (All P) (ltb k j) (p, h)
        (if_both (All P) (j == k) (p, h.1) (h.0, All-put k v d p h.1))

  pub All-erase : (k : ℕ) (d : List (ℕ × V)) → All P d → All P (erase k d)
  unfolding erase
  All-erase k [] h = tt
  All-erase k ((j, w) ∷ d) h = if_both (All P) (j == k) h.1 (h.0, All-erase k d h.1)

pub sent_down-append :
    (xs ys : List ControllerCall) → sent_down (xs ++ ys) ≡ sent_down xs ++ sent_down ys
sent_down-append [] ys = refl
sent_down-append (x ∷ xs) ys =
    ap (◌++◌ (carried x)) (sent_down-append xs ys)
    ∙ sym (append_assoc (carried x) (sent_down xs) (sent_down ys))

on_links-append :
    (conn : ℕ) (xs ys : List Call) → on_links conn (xs ++ ys) ≡ on_links conn xs ++ on_links conn ys
on_links-append conn [] ys = refl
on_links-append conn (x ∷ xs) ys = ap (λ t. on_link conn x ∷ t) (on_links-append conn xs ys)

-- What a check sends is messages of pending commands.
module _ (now conn : ℕ) (s : Session) (heap : Heap) (W : Message → Type 0) where
  Sends : List Call → Type 0
  Sends calls = All W (sent_down (on_links conn calls))

  Sends-append : (xs ys : List Call) → Sends xs → Sends ys → Sends (xs ++ ys)
  unfolding Sends
  Sends-append xs ys hx hy =
      rw (on_links-append conn xs ys, sent_down-append (on_links conn xs) (on_links conn ys))
        (All-append W (sent_down (on_links conn xs)) (sent_down (on_links conn ys)) hx hy)

  settle-Sends :
      (k : ℕ) (pc : PendingCommand) (fate : Fate) (rest : Checked)
      → W (sealed (heap pc.msg))
      → Sends rest.calls
      → Sends (settle s heap (k, pc) fate rest).calls
  unfolding Sends
  settle-Sends k pc waits rest w h = h
  settle-Sends k pc (resent pc') rest w h =
      Sends-append (on_conn s (sends (heap pc.msg))) rest.calls
        (if_both Sends s.has_conn (w, tt) tt) h
  settle-Sends k pc dropped rest w h =
      Sends-append (on_conn s disconnects) rest.calls (if_both Sends s.has_conn tt tt) h

  pub check_all-Sends :
      (d : List (ℕ × PendingCommand)) (t : MetricsTracker)
      → All (λ x. W (sealed (heap x.1.msg))) d
      → All W (sent_down (on_links conn (check_all now s heap d t).calls))
  unfolding check_all Sends
  check_all-Sends [] t h = tt
  check_all-Sends ((k, pc) ∷ d) t h =
      settle-Sends k pc (check_command now pc) _ h.0 (check_all-Sends d _ h.1)

-- A check changes of a pending command the time and the count alone.
pub check_all-All :
    (P : ℕ × PendingCommand → Type 0) (now : ℕ) (s : Session) (heap : Heap)
    (d : List (ℕ × PendingCommand)) (t : MetricsTracker)
    → ((k n last : ℕ) (pc : PendingCommand)
        → P (k, pc)
        → P (k, record pc { retry_count = n; last_send = last }))
    → All P d
    → All P (check_all now s heap d t).pending
unfolding check_all
check_all-All P now s heap [] t f h = tt
check_all-All P now s heap ((k, pc) ∷ d) t f h =
    let rest = check_all-All P now s heap d (count_failure s (check_command now pc) t) f h.1 in
    elim (fate_cases now pc) [
      | inl (_, e) ↦ rw e (h.0, rw e at rest)
      | inr (_, inl (_, e)) ↦ rw e (f k _ _ pc h.0, rw e at rest)
      | inr (_, inr (_, e)) ↦ rw e (rw e at rest)
    ]

-- What a check drops is noted.
gone-Among :
    (now k : ℕ) (pc : PendingCommand) (d : List (ℕ × PendingCommand))
    → find k d ≡ some pc
    → check_command now pc ≡ dropped
    → Among k (gone now d)
unfolding gone find
gone-Among now k pc [] h e = absurd (none-ne-some _ h)
gone-Among now k pc ((j, w) ∷ d) h e = elim (Bool-cases (j == k)) [
  | inl q ↦
      let same : w ≡ pc = some-injective _ _ (rw q at h) in
      rw (ap (check_command now) same ∙ e) (inl ((==_iff j k).0 q))
  | inr q ↦ kept (check_command now w) (gone-Among now k pc d (rw q at h) e)
]
  where
    kept : (fate : Fate) → Among k (gone now d) → Among k (gone_with fate j (gone now d))
    kept waits x = x
    kept (resent pc') x = x
    kept dropped x = inr x

-- A pending command is still pending after a check, or noted as dropped.
pub check_all-traced :
    (now k : ℕ) (s : Session) (heap : Heap) (pc : PendingCommand) (t : MetricsTracker)
    → Checks.IsValid s
    → find k s.pending_cmds ≡ some pc
    → ((pc' : PendingCommand) × (find k (check_all now s heap s.pending_cmds t).pending ≡ some pc'))
      ⊎ Among k (gone now s.pending_cmds)
check_all-traced now k s heap pc t v h =
    let after = find-check_all now s heap k 0 s.pending_cmds t v.sorted ∙ ap (aged? now) h in
    elim (fate_cases now pc) [
      | inl (_, e) ↦ inl (pc, after ∙ ap (λ x. aged x pc) e)
      | inr (_, inl (_, e)) ↦ inl (_, after ∙ ap (λ x. aged x pc) e)
      | inr (_, inr (_, e)) ↦ inr (gone-Among now k pc s.pending_cmds h e)
    ]
