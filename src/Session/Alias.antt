-- ===== src/Session/Alias.antt =====
-- `getSetModeMsg` hands out one message object per session, so a pending command and a later one share
-- it.
use mathlib.Core.Path.{subst}
use stradvision.Common.{
  ℕ, Bool-cases, IsU64, List, [], ap, arith, eq→==, false, if◌then◌else◌, inl, inr, ltb, ne→==,
  none, refl, some, sym, true, ◌%◌, ◌+◌, ◌-◌, ◌/◌, ◌<◌, ◌==◌, ◌^◌, ◌∙◌, ◌∷◌, ◌≡◌, ◌≢◌, ◌≤◌,
}
use stradvision.Common.Perms.{flat}
use stradvision.Dict.{find, put}
use stradvision.Dict.Laws.{find-put}
use stradvision.Message.{Heap, Message}
use stradvision.Metrics.{MetricsTracker}
use stradvision.Payload.{serialize_set_mode}
use stradvision.Session.{
  Call, PendingCommand, Session, check_command_timeouts, get_set_mode_msg, sends, track_command,
}
use stradvision.Session.Passes.{asked, check_command_timeouts_lem, given_up, is_due, renewed}

-- The session and the heap after a command for `mode` was made, under the id `header_id`, and tracked.
unfoldable pub command : ℕ → ℕ → ℕ → Session × Heap → Session × Heap
unfolding get_set_mode_msg track_command
command now mode header_id (s, heap) =
    let (s₁, heap₁, msg) = get_set_mode_msg s heap mode header_id in
    (track_command now s₁ heap₁ msg, heap₁)

-- A pending command of the session, just made.
abbrev pub just_made : ℕ → Session → PendingCommand
just_made now s = record { msg = s.msg_set_mode; last_send = now; retry_count = 0 }

pub command-session :
    (now mode a : ℕ) (s : Session) (heap : Heap)
    → (command now mode a (s, heap)).0 ≡ record s {
      payload_set_mode = record { mode = mode };
      pending_cmds = put a (just_made now s) s.pending_cmds;
    }
unfolding command
command-session now mode a s heap = rw (eq→== s.msg_set_mode s.msg_set_mode refl) refl

command-heap :
    (now mode a : ℕ) (s : Session) (heap : Heap)
    → let m = (command now mode a (s, heap)).1 s.msg_set_mode in
      (m.header.header_id ≡ a) × (m.payload ≡ serialize_set_mode (record { mode = mode }))
unfolding command
command-heap now mode a s heap = rw (eq→== s.msg_set_mode s.msg_set_mode refl) (refl, refl)

-- Two entries, in the order of their keys, of which a pass renews the first alone.
module _ (a b : ℕ) (p p' q : PendingCommand) (ne : a ≢ b) where
  calls_of_two :
      (f : ℕ × PendingCommand → List Call) (call : Call)
      → f (a, p) ≡ call ∷ []
      → f (b, q) ≡ []
      → flat f (put b q ((a, p) ∷ [])) ≡ call ∷ []
  unfolding put
  calls_of_two f call e e' = elim (Bool-cases (ltb b a)) [
    | inl l ↦ rw (l, e, e') refl
    | inr l ↦ rw (l, ne→== a b ne, e, e') refl
  ]

  entries_of_two :
      (f : ℕ × PendingCommand → List (ℕ × PendingCommand))
      → f (a, p) ≡ (a, p') ∷ []
      → f (b, q) ≡ (b, q) ∷ []
      → flat f (put b q ((a, p) ∷ [])) ≡ put b q ((a, p') ∷ [])
  unfolding put
  entries_of_two f e e' = elim (Bool-cases (ltb b a)) [
    | inl l ↦ rw (l, e, e') refl
    | inr l ↦ rw (l, ne→== a b ne, e, e') refl
  ]

-- A session with a connection and counters, and nothing pending, makes two commands with different ids.
-- At a check a whole second or more after the first and less than one after the second, exactly one
-- message is sent. It is the retry of the first command: that one is noted as sent again, under its own
-- id, and the second one stays as it was. But the message has the second command's id and mode.
pub retry_sends_latest :
    (t₁ t₂ t₃ mode₁ mode₂ a b : ℕ) (s : Session) (heap : Heap) (t : MetricsTracker)
    → a ≢ b
    → s.has_conn ≡ true
    → s.has_tracker ≡ true
    → IsU64 t.command_failures
    → s.pending_cmds ≡ []
    → 1 ≤ (t₃ - t₁) / 1000000000
    → (t₃ - t₂) / 1000000000 < 1
    → let (s', heap') = command t₂ mode₂ b (command t₁ mode₁ a (s, heap)) in
      let (s'', calls, t') = check_command_timeouts t₃ s' heap' t in
      (m : Message) × (calls ≡ sends m ∷ [])
      × (m.header.header_id ≡ b)
      × (m.payload ≡ serialize_set_mode (record { mode = mode₂ }))
      × (find a s''.pending_cmds
          ≡ some (record { msg = s.msg_set_mode; last_send = t₃; retry_count = 1 }))
      × (find b s''.pending_cmds ≡ some (just_made t₂ s))
retry_sends_latest t₁ t₂ t₃ mode₁ mode₂ a b s heap t ne hc ht v none_pending due early = (
  heap' s.msg_set_mode,
  ap (λ (r : Session × List Call × MetricsTracker). r.1) passed
      ∙ ap (flat (asked t₃ heap')) two
      ∙ calls_of_two a b p p' q ne (asked t₃ heap') _ (rw due_now refl) (rw not_yet refl),
  latest.0,
  latest.1,
  left a ∙ rw (ne→== b a (λ e. ne (sym e)), eq→== a a refl) refl,
  left b ∙ rw (eq→== b b refl) refl,
)
  where
    s₁ : Session
    s₁ = (command t₁ mode₁ a (s, heap)).0

    heap₁ : Heap
    heap₁ = (command t₁ mode₁ a (s, heap)).1

    s' : Session
    s' = (command t₂ mode₂ b (s₁, heap₁)).0

    heap' : Heap
    heap' = (command t₂ mode₂ b (s₁, heap₁)).1

    p : PendingCommand
    p = just_made t₁ s

    p' : PendingCommand
    p' = record { msg = s.msg_set_mode; last_send = t₃; retry_count = 1 }

    q : PendingCommand
    q = just_made t₂ s

    made : s' ≡ record s {
      payload_set_mode = record { mode = mode₂ };
      pending_cmds = put b q (put a p s.pending_cmds);
    }
    made =
        command-session t₂ mode₂ b s₁ heap₁
        ∙ ap
            (λ (x : Session). record x {
              payload_set_mode = record { mode = mode₂ };
              pending_cmds = put b (just_made t₂ x) x.pending_cmds;
            })
            (command-session t₁ mode₁ a s heap)

    two : s'.pending_cmds ≡ put b q ((a, p) ∷ [])
    two = ap (λ (x : Session). x.pending_cmds) made ∙ rw none_pending (unfold put in refl)

    passed : check_command_timeouts t₃ s' heap' t ≡ (
      record s' { pending_cmds = flat (renewed t₃) s'.pending_cmds },
      flat (asked t₃ heap') s'.pending_cmds,
      record t { command_failures = (t.command_failures + given_up t₃ s'.pending_cmds) % 2 ^ 64 },
    )
    passed =
        check_command_timeouts_lem t₃ s' heap' t (ap (λ (x : Session). x.has_conn) made ∙ hc)
          (ap (λ (x : Session). x.has_tracker) made ∙ ht) v

    due_now : is_due t₃ p ≡ true
    due_now = ground arith

    not_yet : is_due t₃ q ≡ false
    not_yet = ground arith

    latest :
        (((heap' s.msg_set_mode).header.header_id) ≡ b)
        × ((heap' s.msg_set_mode).payload ≡ serialize_set_mode (record { mode = mode₂ }))
    latest =
        subst
          (λ (x : ℕ).
            ((heap' x).header.header_id ≡ b)
            × ((heap' x).payload ≡ serialize_set_mode (record { mode = mode₂ })))
          (ap (λ (x : Session). x.msg_set_mode) (command-session t₁ mode₁ a s heap))
          (command-heap t₂ mode₂ b s₁ heap₁)

    left :
        (i : ℕ)
        → find i (check_command_timeouts t₃ s' heap' t).0.pending_cmds
          ≡ (if b == i then some q else (if a == i then some p' else none))
    left i =
        ap (λ (r : Session × List Call × MetricsTracker). find i r.0.pending_cmds) passed
        ∙ ap (λ d. find i (flat (renewed t₃) d)) two
        ∙ ap (find i)
            (entries_of_two a b p p' q ne (renewed t₃) (rw due_now refl) (rw not_yet refl))
        ∙ find-put b i q ((a, p') ∷ [])
        ∙ (unfold find in refl)
