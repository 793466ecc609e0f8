-- ===== src/Session/Backoff.antt =====
-- The life of a command that is never acknowledged: five resends with doubled waits, then the drop.
use native.Mathlib.Nat.{pow-suc, one-le-pow}
use native.Mathlib.Numerals.{towards_suc}
use stradvision.Common.{
  ℕ, List, [], ap, arith, inl, inr, length, suc, zero, ◌*◌, ◌+◌, ◌-◌, ◌<◌, ◌^◌, ◌∷◌, ◌≡◌, ◌≤◌,
}
use stradvision.Session.{
  Fate, PendingCommand, check_command, dropped, max_retries, nanos, resent, seconds_between, waits,
}
use stradvision.Session.Checks.{fate_cases}

-- The passes over one command, at the given times: it is still there after a number of resends, or was
-- dropped at a time.
pub data Watched : Type 0 where
  alive : PendingCommand → ℕ → Watched
  gone : ℕ → ℕ → Watched

abbrev pub one_more : Watched → Watched
one_more (alive pc n) = alive pc (suc n)
one_more (gone at n) = gone at (suc n)

abbrev watch_on : (PendingCommand → Watched) → ℕ → PendingCommand → Fate → Watched
watch_on more now pc waits = more pc
watch_on more now pc (resent pc') = one_more (more pc')
watch_on more now pc dropped = gone now 0

unfoldable pub watch : List ℕ → PendingCommand → Watched
watch [] pc = alive pc 0
watch (now ∷ times) pc = watch_on (watch times) now pc (check_command now pc)

-- The clock does not go back.
abbrev pub Ascending : ℕ → List ℕ → Type 0
Ascending before [] = Unit {0}
Ascending before (now ∷ times) = (before ≤ now) × Ascending now times

-- After `r` resends at least 2 ^ r - 1 seconds have passed since the command was tracked.
abbrev pub Waited : ℕ → PendingCommand → Type 0
Waited tracked pc = tracked + (2 ^ pc.retry_count - 1) * nanos ≤ pc.last_send

powers : (r : ℕ) → r < 5 → 2 ^ (r + 1) ≡ 2 * 2 ^ r
powers r h = simp towards_suc (omega (arith, pow-suc 2 r))

one_le_two_pow : (r : ℕ) → 1 ≤ 2 ^ r
one_le_two_pow r = one-le-pow r 2 (omega arith)

-- Seen from a command with `r` resends behind it: the count goes on from `r` and stops at five, and the
-- drop comes at the sixth timeout, 63 seconds after the command was tracked or later.
abbrev pub Lives : ℕ → ℕ → Watched → Type 0
Lives tracked r (alive pc n) = (n + r ≡ pc.retry_count) × (pc.retry_count ≤ max_retries)
Lives tracked r (gone at n) = (n + r ≡ max_retries) × (tracked + 63 * nanos ≤ at)

Lives-one_more :
    (tracked r : ℕ) (w : Watched) → Lives tracked (r + 1) w → Lives tracked r (one_more w)
Lives-one_more tracked r (alive pc n) h = (omega arith, h.1)
Lives-one_more tracked r (gone at n) h = (omega arith, h.1)

resent-Waited :
    (tracked now : ℕ) (pc : PendingCommand)
    → Waited tracked pc
    → pc.last_send ≤ now
    → pc.retry_count < max_retries
    → 2 ^ pc.retry_count ≤ seconds_between now pc.last_send
    → Waited tracked (record pc { retry_count = pc.retry_count + 1; last_send = now })
resent-Waited tracked now pc w l r t =
    omega (arith, powers pc.retry_count r, one_le_two_pow pc.retry_count)

dropped_late :
    (tracked now : ℕ) (pc : PendingCommand)
    → Waited tracked pc
    → pc.last_send ≤ now
    → pc.retry_count ≡ max_retries
    → 2 ^ pc.retry_count ≤ seconds_between now pc.last_send
    → tracked + 63 * nanos ≤ now
dropped_late tracked now pc w l r t = omega (arith, ap (λ (n : ℕ). 2 ^ n) r)

watch_bounds :
    (tracked before : ℕ) (times : List ℕ) (pc : PendingCommand)
    → pc.retry_count ≤ max_retries
    → Waited tracked pc
    → pc.last_send ≤ before
    → Ascending before times
    → Lives tracked pc.retry_count (watch times pc)
unfolding watch
watch_bounds tracked before [] pc b w l a = (omega arith, b)
watch_bounds tracked before (now ∷ times) pc b w l a = elim (fate_cases now pc) [
  | inl (_, e) ↦ rw e (watch_bounds tracked now times pc b w (omega arith) a.1)
  | inr (t, inl (r, e)) ↦ rw e (
      Lives-one_more tracked pc.retry_count _ (
        watch_bounds tracked now times
          (record pc { retry_count = pc.retry_count + 1; last_send = now }) (omega arith)
          (resent-Waited tracked now pc w (omega arith) r t) (omega arith) a.1))
  | inr (t, inr (r, e)) ↦
      rw e (omega arith, dropped_late tracked now pc w (omega arith) (omega arith) t)
]

-- A command that is tracked at one time and then checked at any later times, and never acknowledged: it
-- is resent at most five times, its retry count is the number of resends, and it is dropped, if at all,
-- after exactly five resends and not before 63 seconds have passed.
pub watch_fresh :
    (tracked msg : ℕ) (times : List ℕ)
    → Ascending tracked times
    → Lives tracked 0 (watch times (record { msg = msg; last_send = tracked; retry_count = 0 }))
watch_fresh tracked msg times a =
    watch_bounds tracked tracked times _ (omega arith) (omega arith) (omega arith) a

-- Each check comes 32 seconds after the one before, or later.
abbrev pub Spaced : ℕ → List ℕ → Type 0
Spaced before [] = Unit {0}
Spaced before (now ∷ times) = (before + 32 * nanos ≤ now) × Spaced now times

abbrev pub IsGone : Watched → Type 0
IsGone (alive pc n) = ⊥
IsGone (gone at n) = Unit {0}

IsGone-one_more : (w : Watched) → IsGone w → IsGone (one_more w)
IsGone-one_more (alive pc n) h = h
IsGone-one_more (gone at n) h = h

two_pow_le : (r : ℕ) → r ≤ 5 → 2 ^ r ≤ 32
two_pow_le zero h = omega arith
two_pow_le (suc zero) h = omega arith
two_pow_le (suc (suc zero)) h = omega arith
two_pow_le (suc (suc (suc zero))) h = omega arith
two_pow_le (suc (suc (suc (suc zero)))) h = omega arith
two_pow_le (suc (suc (suc (suc (suc zero))))) h = omega arith
two_pow_le (suc (suc (suc (suc (suc (suc r)))))) h = absurd (omega arith)

-- A command that is never acknowledged is dropped: six checks at least 32 seconds apart are enough, and
-- for a command with `r` resends behind it `6 - r` are.
pub watch_ends :
    (times : List ℕ) (pc : PendingCommand)
    → pc.retry_count ≤ max_retries
    → Spaced pc.last_send times
    → 6 ≤ length times + pc.retry_count
    → IsGone (watch times pc)
unfolding watch
watch_ends [] pc b a h = omega arith
watch_ends (now ∷ times) pc b a h = elim (fate_cases now pc) [
  | inl (t, e) ↦ absurd (omega (arith, two_pow_le pc.retry_count b))
  | inr (t, inl (r, e)) ↦ rw e (
      IsGone-one_more _ (
        watch_ends times (record pc { retry_count = pc.retry_count + 1; last_send = now })
          (omega arith) a.1 (omega arith)))
  | inr (t, inr (r, e)) ↦ rw e tt
]
