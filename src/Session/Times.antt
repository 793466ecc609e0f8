-- ===== src/Session/Times.antt =====
-- What the counters learn of a command: the time from its tracking to its acknowledgement.
use mathlib.Core.Path.{subst}
use stradvision.Common.{
  ℕ, Bool-cases, ap, arith, eq→==, if◌then◌else◌, inl, inr, none, refl, some, sym, true, ◌%◌, ◌+◌,
  ◌-◌, ◌/◌, ◌==◌, ◌^◌, ◌∙◌, ◌≡◌,
}
use stradvision.Dict.{Sorted, erase, find, put}
use stradvision.Dict.Laws.{find-erase, find-put, put-Sorted}
use stradvision.Message.{Heap}
use stradvision.Metrics.{MetricsTracker}
use stradvision.Session.{PendingCommand, Session, handle_ack}
use stradvision.Session.Alias.{command, command-session, just_made}
use stradvision.Session.Checks.{IsValid}

-- What an acknowledgement does when nothing is pending under its id.
handle_ack-unknown :
    (now id : ℕ) (s : Session) (t : MetricsTracker)
    → find id s.pending_cmds ≡ none
    → handle_ack now id s t ≡ (s, t)
unfolding handle_ack
handle_ack-unknown now id s t h = rw h refl

handle_ack-known :
    (now id : ℕ) (s : Session) (t : MetricsTracker) (pc : PendingCommand)
    → s.has_tracker ≡ true
    → find id s.pending_cmds ≡ some pc
    → handle_ack now id s t ≡ (
      record s { pending_cmds = erase id s.pending_cmds },
      record t {
        total_rtt_ms = (t.total_rtt_ms + (now - pc.last_send) / 1000000) % 2 ^ 64;
        rtt_samples = (t.rtt_samples + 1) % 2 ^ 64;
      },
    )
unfolding handle_ack
handle_ack-known now id s t pc ht h = rw (h, ht) refl

-- A session with counters, and commands in the order of their ids, makes a mode command and tracks it. The
-- first acknowledgement of its id adds the milliseconds since then to the total and one sample, both
-- modulo 2 ^ 64, and changes no other counter. It takes the command out of the pending ones, and no other
-- one. A second acknowledgement of the id changes nothing.
pub sampled_once :
    (t₁ t₂ t₃ mode id i : ℕ) (s : Session) (heap : Heap) (t : MetricsTracker)
    → IsValid s
    → s.has_tracker ≡ true
    → let s₁ = (command t₁ mode id (s, heap)).0 in
      let (s₂, c₂) = handle_ack t₂ id s₁ t in
      (c₂ ≡ record t {
        total_rtt_ms = (t.total_rtt_ms + (t₂ - t₁) / 1000000) % 2 ^ 64;
        rtt_samples = (t.rtt_samples + 1) % 2 ^ 64;
      })
      × (find i s₂.pending_cmds ≡ (if id == i then none else find i s.pending_cmds))
      × (handle_ack t₃ id s₂ c₂ ≡ (s₂, c₂))
sampled_once t₁ t₂ t₃ mode id i s heap t v ht = (
  ap (λ (r : Session × MetricsTracker). r.1) first,
  others i,
  handle_ack-unknown t₃ id s₂ _ (others id ∙ rw (eq→== id id refl) refl),
)
  where
    s₁ : Session
    s₁ = (command t₁ mode id (s, heap)).0

    s₂ : Session
    s₂ = (handle_ack t₂ id s₁ t).0

    made : s₁ ≡ record s {
      payload_set_mode = record { mode = mode };
      pending_cmds = put id (just_made t₁ s) s.pending_cmds;
    }
    made = command-session t₁ mode id s heap

    found :
        (j : ℕ)
        → find j s₁.pending_cmds
          ≡ (if id == j then some (just_made t₁ s) else find j s.pending_cmds)
    found j =
        ap (λ (x : Session). find j x.pending_cmds) made
        ∙ find-put id j (just_made t₁ s) s.pending_cmds

    first : handle_ack t₂ id s₁ t ≡ (
      record s₁ { pending_cmds = erase id s₁.pending_cmds },
      record t {
        total_rtt_ms = (t.total_rtt_ms + (t₂ - t₁) / 1000000) % 2 ^ 64;
        rtt_samples = (t.rtt_samples + 1) % 2 ^ 64;
      },
    )
    first =
        handle_ack-known t₂ id s₁ t (just_made t₁ s) (ap (λ (x : Session). x.has_tracker) made ∙ ht)
          (found id ∙ rw (eq→== id id refl) refl)

    sorted : Sorted 0 s₁.pending_cmds
    sorted =
        subst (λ (x : Session). Sorted 0 x.pending_cmds) (sym made)
          (put-Sorted 0 id (just_made t₁ s) s.pending_cmds (omega arith) v.sorted)

    others : (j : ℕ) → find j s₂.pending_cmds ≡ (if id == j then none else find j s.pending_cmds)
    others j =
        ap (λ (r : Session × MetricsTracker). find j r.0.pending_cmds) first
        ∙ find-erase 0 id j s₁.pending_cmds sorted
        ∙ elim (Bool-cases (id == j)) [ inl q ↦ rw q refl | inr q ↦ rw q (found j ∙ rw q refl) ]
