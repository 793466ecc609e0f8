-- ===== src/Controller/Modes.antt =====
-- The policies of configs/policy.json: an upper and a lower threshold with a band between them.
use stradvision.Common.{ℕ, Bool, codes, false, if◌then◌else◌, true, ◌≡◌}
use stradvision.Controller.{Controller, Policy}
use stradvision.Message.{cmd_set_mode}
use stradvision.Store.{FloatOps}

-- IEEE comparisons of two floats: `>` is `<` turned round, and `<` is transitive.
pub record IsOrdered (f : FloatOps) : Type 0 where
  pub gt-eq-lt : (a b : ℕ) → f.gt a b ≡ f.lt b a
  pub lt_trans : (a b c : ℕ) → f.lt a b ≡ true → f.lt b c ≡ true → f.lt a c ≡ true

-- `metric > high` sets mode 1, and `metric < low` sets mode 0; the names and metrics play no part.
abbrev pub IsAbove : ℕ → Policy → Type 0
IsAbove high p =
    (p.condition.op ≡ codes ">")
    × (p.condition.threshold ≡ high)
    × (p.action.command ≡ cmd_set_mode)
    × (p.action.mode ≡ 1)

abbrev pub IsBelow : ℕ → Policy → Type 0
IsBelow low p =
    (p.condition.op ≡ codes "<")
    × (p.condition.threshold ≡ low)
    × (p.action.command ≡ cmd_set_mode)
    × (p.action.mode ≡ 0)

-- The mode that the load asks for: overload above the band, normal below it, the old one inside.
abbrev pub wanted_mode : FloatOps → ℕ → ℕ → ℕ → Bool → Bool
wanted_mode f high low avg_load old =
    if f.gt avg_load high then true else (if f.lt avg_load low then false else old)

abbrev pub mode_of : Bool → ℕ
mode_of true = 1
mode_of false = 0
