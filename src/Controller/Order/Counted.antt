-- ===== src/Controller/Order/Counted.antt =====
-- What the rounds of the session loop do to the counters, in any order.
use stradvision.Common.{
  ℕ, Bool, List, [], ap, false, if◌then◌else◌, refl, suc, sym, true, zero, ◌∙◌, ◌∷◌, ◌≡◌,
}
use stradvision.Controller.{sub_connection}
use stradvision.Metrics.{MetricsTracker}
use stradvision.Session.{Fate, PendingCommand, add_failure, check_command, dropped, resent, waits}

-- The failures among the commands.
abbrev pub failed_or : Fate → ℕ → ℕ
failed_or waits n = n
failed_or (resent pc) n = n
failed_or dropped n = suc n

abbrev pub failures : ℕ → List (ℕ × PendingCommand) → ℕ
failures now [] = 0
failures now ((k, pc) ∷ pending) = failed_or (check_command now pc) (failures now pending)

abbrev pub times : ℕ → (MetricsTracker → MetricsTracker) → MetricsTracker → MetricsTracker
times zero f t = t
times (suc n) f t = times n f (f t)

-- What a round does to the counters.
abbrev pub counted : Bool → ℕ → Bool → MetricsTracker → MetricsTracker
counted healthy n has t = if healthy then times n (add_failure has) t else sub_connection t

-- Rounds in another order count the same.
abbrev pub Commute : (MetricsTracker → MetricsTracker) → (MetricsTracker → MetricsTracker) → Type 0
Commute f g = (t : MetricsTracker) → f (g t) ≡ g (f t)

times-Commute :
    (n : ℕ) (f g : MetricsTracker → MetricsTracker) → Commute f g → Commute (times n f) g
times-Commute zero f g c t = refl
times-Commute (suc n) f g c t = ap (times n f) (c t) ∙ times-Commute n f g c (f t)

sym-Commute : (f g : MetricsTracker → MetricsTracker) → Commute f g → Commute g f
sym-Commute f g c t = sym (c t)

add_failure-Commute : (b b' : Bool) → Commute (add_failure b) (add_failure b')
add_failure-Commute true true t = refl
add_failure-Commute true false t = refl
add_failure-Commute false true t = refl
add_failure-Commute false false t = refl

drop-Commute : (b : Bool) → Commute (add_failure b) sub_connection
drop-Commute true t = refl
drop-Commute false t = refl

pub counted-Commute :
    (b b' : Bool) (n n' : ℕ) (has has' : Bool) → Commute (counted b n has) (counted b' n' has')
counted-Commute true true n n' has has' =
    let f = add_failure has in
    let g = add_failure has' in
    times-Commute n f (times n' g)
      (sym-Commute (times n' g) f (times-Commute n' g f (add_failure-Commute has' has)))
counted-Commute true false n n' has has' =
    times-Commute n (add_failure has) sub_connection (drop-Commute has)
counted-Commute false true n n' has has' =
    sym-Commute (times n' (add_failure has')) sub_connection
      (times-Commute n' (add_failure has') sub_connection (drop-Commute has'))
counted-Commute false false n n' has has' = λ t. refl
