-- ===== src/Controller/Accounts.antt =====
-- `active_connections` along the runs of the controller: every event's share in it.
use stradvision.Common.{
  ℕ, Bool, IsU32, List, Option-cases, [], ap, arith, false, if_both, inl, inr, length, refl, u32,
  ◌+◌, ◌-◌, ◌∙◌, ◌∷◌, ◌≡◌,
}
use stradvision.Controller.{
  Controller, ControllerCall, Entry, Policy, healthy_entry, lock, on_accept, on_accept_error,
  on_error, on_message, session_of,
}
use stradvision.Controller.Cases.{apply_policies_cases, check_policy_update_cases}
use stradvision.Controller.Commands.{add_policy, clear_policies, get_next_id, shutdown_controller}
use stradvision.Controller.Config.{PolicyFile, check_policy_update}
use stradvision.Controller.Gauge.{gauge, sweep-gauge}
use stradvision.Controller.Handled.{Moves, on_error-Moves, on_message-Moves, threw}
use stradvision.Controller.Health.{
  Sweep, apply_policies, change_mode, check_entry, health_check, sweep, swept,
}
use stradvision.Controller.Steps.{
  ControllerEvent, adds, breaks, clears, connects_to, controller_run, controller_step, receives,
  refuses, stops, ticks,
}
use stradvision.Dict.{find}
use stradvision.Message.{MessageType}
use stradvision.Store.{FloatOps}

-- How often an event counts the gauge up, and down: a broken connection and an exception count it down
-- once, and the health check once for each session that it drops.
abbrev pub ups : ControllerEvent → ℕ
ups (connects_to now wall fresh conn) = 1
ups _ = 0

abbrev pub downs : ControllerEvent → Controller → ℕ
downs (breaks conn) c = 1
downs (receives now wall fresh conn msg) c = threw (on_message now wall fresh conn msg c)
downs (ticks unset file now is_open) c =
    length c.sessions - length (sweep now is_open c.sessions c.tracker c.messages).kept
downs _ c = 0

abbrev pub all_ups : List ControllerEvent → ℕ
all_ups [] = 0
all_ups (e ∷ es) = ups e + all_ups es

unfoldable pub all_downs : FloatOps → List ControllerEvent → Controller → ℕ
all_downs f [] c = 0
all_downs f (e ∷ es) c = downs e c + all_downs f es (controller_step f e c)

policies-gauge :
    (f : FloatOps) (now avg_load : ℕ) (is_open : ℕ → Bool) (ps : List Policy) (c : Controller)
    → gauge (apply_policies f now is_open avg_load ps c).0 ≡ gauge c
policies-gauge f now avg_load is_open ps c =
    apply_policies_cases (λ x. gauge x ≡ gauge c) f now avg_load is_open ps c
      (λ mode x e. unfold change_mode get_next_id in e) refl

check_policy_update-tracker :
    (unset : MessageType) (file : PolicyFile) (c : Controller)
    → let c' = check_policy_update unset file c in
      (c'.sessions ≡ c.sessions) × (c'.tracker ≡ c.tracker) × (c'.messages ≡ c.messages)
check_policy_update-tracker unset file c =
    check_policy_update_cases
      (λ x. (x.sessions ≡ c.sessions) × (x.tracker ≡ c.tracker) × (x.messages ≡ c.messages)) unset
      file c (refl, refl, refl) (λ ps. (refl, refl, refl)) λ ps t. (refl, refl, refl)

ticks-Moves :
    (f : FloatOps) (unset : MessageType) (file : PolicyFile) (now : ℕ) (is_open : ℕ → Bool)
    (c : Controller)
    → IsU32 (gauge c)
    → Moves 0
        (downs (ticks unset file now is_open) c)
        (gauge c)
        (gauge (health_check f unset file now is_open c).0)
unfolding health_check swept
ticks-Moves f unset file now is_open c w =
    let (s, t, m) = check_policy_update-tracker unset file c in
    let kept = sweep-gauge now is_open c.sessions c.tracker c.messages w in
    let c₁ = check_policy_update unset file c in
    let same : sweep now is_open c₁.sessions c₁.tracker c₁.messages
        ≡ sweep now is_open c.sessions c.tracker c.messages =
      ap (λ x. sweep now is_open x c₁.tracker c₁.messages) s
      ∙ ap (λ x. sweep now is_open c.sessions x c₁.messages) t
      ∙ ap (sweep now is_open c.sessions c.tracker) m in
    let total : gauge (health_check f unset file now is_open c).0
        ≡ (sweep now is_open c.sessions c.tracker c.messages).tracker.active_connections =
      policies-gauge f now _ is_open _ _ ∙ ap (λ (r : Sweep). r.tracker.active_connections) same in
    omega (arith, total, kept)

controller_step-Moves :
    (f : FloatOps) (e : ControllerEvent) (c : Controller)
    → IsU32 (gauge c)
    → Moves (ups e) (downs e c) (gauge c) (gauge (controller_step f e c))
controller_step-Moves f (connects_to now wall fresh conn) c w =
    unfold controller_step on_accept in omega arith
controller_step-Moves f refuses c w = unfold controller_step on_accept_error in omega arith
controller_step-Moves f (receives now wall fresh conn msg) c w =
    unfold controller_step in on_message-Moves now wall fresh conn msg c w
controller_step-Moves f (breaks conn) c w = unfold controller_step in on_error-Moves conn c w
controller_step-Moves f (ticks unset file now is_open) c w =
    unfold controller_step in ticks-Moves f unset file now is_open c w
controller_step-Moves f clears c w = unfold controller_step clear_policies in omega arith
controller_step-Moves f (adds p) c w = unfold controller_step add_policy in omega arith
controller_step-Moves f stops c w =
    unfold controller_step shutdown_controller in
    (if_both (λ (r : Controller × List ControllerCall). Moves 0 0 (gauge c) (gauge r.0))
      c.is_shutting_down (omega arith) (omega arith))

-- Along every run from a gauge of 32 bits, modulo 2 ^ 32: the gauge of active connections is what it
-- was, plus the accepted connections, minus the broken ones, the exceptions that handling a message
-- threw, and the sessions that health checks dropped.
pub controller_run-Moves :
    (f : FloatOps) (es : List ControllerEvent) (c : Controller)
    → IsU32 (gauge c)
    → Moves (all_ups es) (all_downs f es c) (gauge c) (gauge (controller_run f es c))
unfolding controller_run all_downs
controller_run-Moves f [] c w = omega arith
controller_run-Moves f (e ∷ es) c w =
    let first = controller_step-Moves f e c w in
    omega (arith, first, controller_run-Moves f es (controller_step f e c) first.0)

-- A session that a health check drops is counted down a second time when its connection breaks: with one
-- session in all, which is not healthy, and a gauge of 32 bits, the session is gone after the check and
-- the break of its connection, and the gauge is two lower, modulo 2 ^ 32.
pub dropped_twice :
    (now k : ℕ) (is_open : ℕ → Bool) (e : Entry) (c : Controller)
    → IsU32 (gauge c)
    → c.sessions ≡ (k, e) ∷ []
    → healthy_entry now is_open e ≡ false
    → let c' = on_error e.conn (swept now is_open c).0 in
      (c'.sessions ≡ []) × (u32 (gauge c' + 2) ≡ gauge c)
unfolding swept sweep check_entry on_error session_of lock
dropped_twice now k is_open e c w s h =
    rw (s, h)
      (elim (Option-cases (find e.conn c.contexts)) [
        | inl q ↦ rw q (refl, omega arith)
        | inr (sid, q) ↦ rw q (refl, omega arith)
      ])
