-- ===== src/Controller/Order.antt =====
-- `sessions_` is an unordered map, and a list of entries here. What the health check, a broadcast and a
-- shutdown do with the entries in another order; the pointers in the message pool may be in another order too.
pub mod Same
pub mod Counted
pub mod Swept
pub mod Made
pub mod Sent
use mathlib.Core.Path.{subst}
use mathlib.Core.List.Permᴰ
use mathlib.Core.List.{Permᴰ}
use stradvision.Common.{ℕ, Bool, Bool-cases, List, [], eqb, inl, inr, refl, ◌&&◌, ◌++◌, ◌==◌, ◌∷◌}
use stradvision.Common.Perms.{append-Perm}
use stradvision.Controller.{Controller, ControllerCall, Policy}
use stradvision.Controller.Commands.{get_next_id, shutdown_controller}
use stradvision.Controller.Config.{PolicyFile, start_health_check}
use stradvision.Controller.Health.{
  apply_policies, apply_policy, change_mode, condition_met, health_check, swept,
}
use stradvision.Controller.Order.Made.{command_all-Perm}
use stradvision.Controller.Order.Swept.{sweep-Perm}
use stradvision.Controller.Order.Same.{Alike, AreAlike, reordered, to_reordered, update-Alike}
use stradvision.Controller.Order.Sent.{flush_all-Perm}
use stradvision.Dict.{find, or_zero}
use stradvision.Message.{MessageType, cmd_set_mode}
use stradvision.Store.{FloatOps, get_aggregate_load}

swept-Alike :
    (now : ℕ) (is_open : ℕ → Bool) (c c' : Controller)
    → Alike c c'
    → AreAlike (swept now is_open c) (swept now is_open c')
unfolding swept
swept-Alike now is_open c c' a =
    to_reordered (λ x. AreAlike (swept now is_open c) (swept now is_open x)) c c' a
      (λ xs pool p q.
        let (kept, calls, pool', tracker, heap) =
          sweep-Perm now is_open c.messages.heap c.tracker c.sessions xs c.tracker c.messages.pool
            pool p q in
        (record { sessions = kept; pool = pool'; rest = rw (tracker, heap) refl }, calls))

change_mode-Alike :
    (now : ℕ) (is_open : ℕ → Bool) (mode : ℕ) (c c' : Controller)
    → Alike c c'
    → AreAlike (change_mode now is_open mode c) (change_mode now is_open mode c')
unfolding change_mode get_next_id
change_mode-Alike now is_open mode c c' a =
    to_reordered (λ x. AreAlike (change_mode now is_open mode c) (change_mode now is_open mode x)) c
      c' a
      (λ xs pool p q.
        let id = or_zero (find cmd_set_mode c.message_counters) in
        let (entries, calls, heap) =
          command_all-Perm now is_open mode id c.sessions xs c.messages.heap p in
        (record { sessions = entries; pool = q; rest = rw heap refl }, calls))

apply_policy-Alike :
    (f : FloatOps) (now : ℕ) (is_open : ℕ → Bool) (avg_load : ℕ) (p : Policy) (c c' : Controller)
    → Alike c c'
    → AreAlike (apply_policy f now is_open avg_load p c) (apply_policy f now is_open avg_load p c')
unfolding apply_policy
apply_policy-Alike f now is_open avg_load p c c' a =
    to_reordered
      (λ x.
        AreAlike (apply_policy f now is_open avg_load p c)
          (apply_policy f now is_open avg_load p x))
      c c' a
      (λ xs pool r q.
        let same : Alike c (reordered xs pool c) = record { sessions = r; pool = q; rest = refl } in
        elim (Bool-cases
          (condition_met f avg_load p.condition && (p.action.command == cmd_set_mode))) [
            | inl e ↦ rw e (elim (Bool-cases (eqb c.overload_mode (p.action.mode == 1))) [
              | inl n ↦ rw n (same, Permᴰ.nil)
              | inr n ↦ rw n (change_mode-Alike now is_open p.action.mode c _ same)
            ])
            | inr e ↦ rw e (same, Permᴰ.nil)
          ])

apply_policies-Alike :
    (f : FloatOps) (now : ℕ) (is_open : ℕ → Bool) (avg_load : ℕ) (ps : List Policy)
    (c c' : Controller)
    → Alike c c'
    → AreAlike
        (apply_policies f now is_open avg_load ps c)
        (apply_policies f now is_open avg_load ps c')
unfolding apply_policies
apply_policies-Alike f now is_open avg_load [] c c' a = (a, Permᴰ.nil)
apply_policies-Alike f now is_open avg_load (p ∷ ps) c c' a =
    let (one, calls) = apply_policy-Alike f now is_open avg_load p c c' a in
    let (rest, more) = apply_policies-Alike f now is_open avg_load ps _ _ one in
    (rest, append-Perm calls more)

start-Perm : (c c' : Controller) → Alike c c' → Permᴰ (start_health_check c) (start_health_check c')
unfolding start_health_check
start-Perm c c' a =
    to_reordered (λ x. Permᴰ (start_health_check c) (start_health_check x)) c c' a
      (λ xs pool p q. Permᴰ.refl (start_health_check c))

-- The end of a health check: the policies, and the next check.
abbrev policed :
    FloatOps → ℕ → (ℕ → Bool) → Controller × List ControllerCall → Controller × List ControllerCall
policed f now is_open (c, calls) =
    let avg_load = get_aggregate_load f c.states in
    let (c', more) = apply_policies f now is_open avg_load c.policies c in
    (c', calls ++ (more ++ start_health_check c'))

policed-AreAlike :
    (f : FloatOps) (now : ℕ) (is_open : ℕ → Bool) (r r' : Controller × List ControllerCall)
    → AreAlike r r'
    → AreAlike (policed f now is_open r) (policed f now is_open r')
policed-AreAlike f now is_open (c, calls) (c', calls') (a, d) =
    to_reordered
      (λ x. AreAlike (policed f now is_open (c, calls)) (policed f now is_open (x, calls'))) c c' a
      (λ xs pool p q.
        let avg_load = get_aggregate_load f c.states in
        let same : Alike c (reordered xs pool c) = record { sessions = p; pool = q; rest = refl } in
        let (rest, more) = apply_policies-Alike f now is_open avg_load c.policies c _ same in
        (rest, append-Perm d (append-Perm more (start-Perm _ _ rest))))

-- A health check, at the same time and with the same file and connections, of a controller whose sessions
-- and pool stand in another order: the same sessions are
-- left, with the same pending commands, the same pointers are in the pool, the calls of the connections are
-- the same in some order, and everything else is equal: the message objects, the counters, the policies,
-- the ids of the commands, and the mode.
pub health_check-AreAlike :
    (f : FloatOps) (unset : MessageType) (file : PolicyFile) (now : ℕ) (is_open : ℕ → Bool)
    (c c' : Controller)
    → Alike c c'
    → AreAlike (health_check f unset file now is_open c) (health_check f unset file now is_open c')
unfolding health_check
health_check-AreAlike f unset file now is_open c c' a =
    policed-AreAlike f now is_open _ _
      (swept-Alike now is_open _ _ (update-Alike unset file c c' a))

-- A shutdown of a controller whose sessions and pool stand in another order: the same sessions are left,
-- without their pending commands, and the same calls are made in some order.
pub shutdown-AreAlike :
    (c c' : Controller) → Alike c c' → AreAlike (shutdown_controller c) (shutdown_controller c')
unfolding shutdown_controller
shutdown-AreAlike c c' a =
    to_reordered (λ x. AreAlike (shutdown_controller c) (shutdown_controller x)) c c' a
      (λ xs pool p q.
        let (kept, calls) = flush_all-Perm c.messages.heap c.sessions xs p in
        elim (Bool-cases c.is_shutting_down) [
          | inl e ↦ rw e (record { sessions = p; pool = q; rest = refl }, Permᴰ.nil)
          | inr e ↦ rw e (
            record { sessions = kept; pool = q; rest = refl },
            Permᴰ.cons refl (Permᴰ.cons refl calls),
          )
        ])
