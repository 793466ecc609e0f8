-- ===== src/Controller/Runs.antt =====
-- The invariant along every run of the controller.
use mathlib.Core.Path.{subst}
use mathlib.Core.Option.{some-injective, none-ne-some}
use stradvision.Comm.{is_empty}
use stradvision.Common.{
  ℕ, Bool, Bool-cases, List, Option, Option-cases, [], ap, if_both, inl, inr, none, refl, some, suc,
  sym, ◌==◌, ◌∙◌, ◌∷◌, ◌≡◌,
}
use stradvision.Controller.{Controller, ControllerCall, Entry, Sessions, on_accept, on_accept_error}
use stradvision.Controller.Cases.{apply_policies_cases, check_policy_update_cases}
use stradvision.Controller.Commands.{
  add_policy, clear_policies, flush_all, get_next_id, shutdown_controller,
}
use stradvision.Controller.Config.{PolicyFile, check_policy_update}
use stradvision.Controller.Health.{change_mode, health_check, swept}
use stradvision.Controller.Invariant.{AreValid, IsRegistered}
use stradvision.Controller.Kept.{
  changed-IsRegistered, command_all-AreValid, no_tracker, part-AreValid, sweep-AreValid,
}
use stradvision.Controller.Preserved.{IsConsistent, on_error-IsConsistent, on_message-IsConsistent}
use stradvision.Controller.Steps.{
  ControllerEvent, adds, breaks, clears, connects_to, controller_run, controller_step, receives,
  refuses, stops, ticks,
}
use stradvision.Dict.{Sorted, find, or_zero}
use stradvision.Message.{Heap, MessageType, cmd_set_mode}
use stradvision.Session.{Call, Session, flush_pending_commands}
use stradvision.Session.Checks.{apply, apply-IsValid, flushes_all}
use stradvision.Store.{FloatOps}

pub change_mode-IsConsistent :
    (now mode : ℕ) (is_open : ℕ → Bool) (c : Controller)
    → IsConsistent c
    → IsConsistent (change_mode now is_open mode c).0
unfolding change_mode get_next_id
change_mode-IsConsistent now mode is_open c v =
    command_all-AreValid now c.created mode (or_zero (find cmd_set_mode c.message_counters)) is_open
      c.sessions c.messages.heap v

health_check-IsConsistent :
    (f : FloatOps) (unset : MessageType) (file : PolicyFile) (now : ℕ) (is_open : ℕ → Bool)
    (c : Controller)
    → IsConsistent c
    → IsConsistent (health_check f unset file now is_open c).0
unfolding health_check swept
health_check-IsConsistent f unset file now is_open c v =
    apply_policies_cases IsConsistent f now _ is_open _ (swept now is_open c₁).0
      (λ mode x w. change_mode-IsConsistent now mode is_open x w)
      (unfold swept in sweep-AreValid now c₁.created is_open c₁.sessions c₁.tracker c₁.messages v₁)
  where
    c₁ : Controller
    c₁ = check_policy_update unset file c

    v₁ : IsConsistent c₁
    v₁ = check_policy_update_cases IsConsistent unset file c v (λ ps. v) λ ps t. v

-- The flush of one session, if there is one.
abbrev pub flushed? : Heap → Option Entry → Option Entry
flushed? heap none = none
flushed? heap (some e) = some (record e { session = (flush_pending_commands e.session heap).0 })

pub find-flush_all :
    (i : ℕ) (heap : Heap) (d : Sessions) → find i (flush_all heap d).0 ≡ flushed? heap (find i d)
unfolding flush_all find
find-flush_all i heap [] = refl
find-flush_all i heap ((k, e) ∷ d) = elim (Bool-cases (k == i)) [
  | inl q ↦ rw q
  | inr q ↦ rw q (find-flush_all i heap d)
]

flush_all-Sorted : (n : ℕ) (heap : Heap) (d : Sessions) → Sorted n d → Sorted n (flush_all heap d).0
unfolding flush_all
flush_all-Sorted n heap [] s = tt
flush_all-Sorted n heap ((k, e) ∷ d) s = (s.0, flush_all-Sorted (suc k) heap d s.1)

flush_all-AreValid :
    (n : ℕ) (heap : Heap) (d : Sessions) → AreValid n d → AreValid n (flush_all heap d).0
flush_all-AreValid n heap d v = part-AreValid n d _ v (flush_all-Sorted 0 heap d v.sorted) λ i w f.
    let kept = sym (find-flush_all i heap d) ∙ f in
    elim (Option-cases (find i d)) [
      | inl e ↦ absurd (none-ne-some _ (sym (ap (flushed? heap) e) ∙ kept))
      | inr (x, e) ↦
          let is_w = some-injective _ _ (sym (ap (flushed? heap) e) ∙ kept) in
          (
            x,
            e,
            sym (ap (λ (y : Entry). y.sid) is_w),
            subst (IsRegistered n i) is_w (one i x (v.entries i x e)),
          )
    ]
  where
    one :
        (i : ℕ) (x : Entry)
        → IsRegistered n i x
        → IsRegistered n i (record x { session = (flush_pending_commands x.session heap).0 })
    one i x r =
        changed-IsRegistered n i x (flush_pending_commands x.session heap).0 r
          (unfold flush_pending_commands in
            if_both (λ (y : Session × List Call). y.0.id ≡ x.session.id)
              (is_empty x.session.pending_cmds) refl refl)
          (unfold flush_pending_commands in
            if_both (λ (y : Session × List Call). y.0.has_conn ≡ x.session.has_conn)
              (is_empty x.session.pending_cmds) refl refl)
          (unfold apply in apply-IsValid heap no_tracker x.session flushes_all r.commands)

controller_step-IsConsistent :
    (f : FloatOps) (e : ControllerEvent) (c : Controller)
    → IsConsistent c
    → IsConsistent (controller_step f e c)
controller_step-IsConsistent f (connects_to now wall fresh conn) c v =
    unfold controller_step on_accept in v
controller_step-IsConsistent f refuses c v = unfold controller_step on_accept_error in v
controller_step-IsConsistent f (receives now wall fresh conn msg) c v =
    unfold controller_step in on_message-IsConsistent now wall fresh conn msg c v
controller_step-IsConsistent f (breaks conn) c v =
    unfold controller_step in on_error-IsConsistent conn c v
controller_step-IsConsistent f (ticks unset file now is_open) c v =
    unfold controller_step in health_check-IsConsistent f unset file now is_open c v
controller_step-IsConsistent f clears c v = unfold controller_step clear_policies in v
controller_step-IsConsistent f (adds p) c v = unfold controller_step add_policy in v
controller_step-IsConsistent f stops c v =
    unfold controller_step shutdown_controller in
    (if_both (λ (r : Controller × List ControllerCall). IsConsistent r.0) c.is_shutting_down v
      (flush_all-AreValid c.created c.messages.heap c.sessions v))

-- Along every run of the controller from a consistent state, as the one without sessions is, whatever
-- connects, sends, breaks or is checked, the state is consistent: the sessions stand
-- in the order of the agents' ids, each id once; they are different objects; and each has the id under
-- which it is registered, its connection, and its pending commands in order with at most five resends.
pub controller_run-IsConsistent :
    (f : FloatOps) (es : List ControllerEvent) (c : Controller)
    → IsConsistent c
    → IsConsistent (controller_run f es c)
unfolding controller_run
controller_run-IsConsistent f [] c v = v
controller_run-IsConsistent f (e ∷ es) c v =
    controller_run-IsConsistent f es (controller_step f e c) (controller_step-IsConsistent f e c v)
