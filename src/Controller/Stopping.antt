-- ===== src/Controller/Stopping.antt =====
-- `is_shutting_down_` of src/controller/Controller.cpp, along the runs of the controller.
use stradvision.Common.{
  ℕ, All, All-append, Bool, List, Option, [], if_both, none, refl, some, true, ◌==◌, ◌∷◌, ◌≡◌,
}
use stradvision.Controller.{
  Controller, ControllerCall, Entry, acked, drop_session, on_accept, on_accept_error, on_error,
  on_message, register, session_of,
}
use stradvision.Controller.Cases.{apply_policies_cases, check_policy_update_cases, on_message_cases}
use stradvision.Controller.Commands.{add_policy, clear_policies, get_next_id, shutdown_controller}
use stradvision.Controller.Config.{PolicyFile, check_policy_update, start_health_check}
use stradvision.Controller.Health.{apply_policies, change_mode, health_check, swept}
use stradvision.Controller.Quiet.{IsQuiet, apply_policies-IsQuiet, sweep-IsQuiet}
use stradvision.Controller.Steps.{
  ControllerEvent, adds, breaks, clears, connects_to, controller_run, controller_step, or_error,
  receives, refuses, stops, ticks,
}
use stradvision.Message.{Message, MessageType}
use stradvision.Store.{FloatOps, get_aggregate_load}

abbrev pub IsStopped : Controller → Type 0
IsStopped c = c.is_shutting_down ≡ true

on_error-IsStopped : (conn : ℕ) (c : Controller) → IsStopped c → IsStopped (on_error conn c)
unfolding on_error
on_error-IsStopped conn c h = dropped_one (session_of conn c)
  where
    dropped_one : (o : Option (ℕ × Entry)) → IsStopped (drop_session o c)
    dropped_one none = h
    dropped_one (some (k, e)) = if_both IsStopped (e.session.id == 0) h h

on_message-IsStopped :
    (now wall fresh conn : ℕ) (msg : Message) (c : Controller)
    → IsStopped c
    → IsStopped (or_error conn c (on_message now wall fresh conn msg c))
on_message-IsStopped now wall fresh conn msg c h =
    on_message_cases (λ r. IsStopped (or_error conn c r)) now wall fresh conn c
      (record {
        throws = λ what. on_error-IsStopped conn c h;
        faults = h;
        stays = λ calls rests. h;
        registers = λ id. unfold register in h;
        beats = λ k e p. h;
        stores = λ states. h;
        acks = λ k id e p. unfold acked in h;
      })
      msg

health_check-IsStopped :
    (f : FloatOps) (unset : MessageType) (file : PolicyFile) (now : ℕ) (is_open : ℕ → Bool)
    (c : Controller)
    → IsStopped c
    → IsStopped (health_check f unset file now is_open c).0
unfolding health_check swept
health_check-IsStopped f unset file now is_open c h =
    apply_policies_cases IsStopped f now _ is_open _ _
      (λ mode x w. unfold change_mode get_next_id in w)
      (check_policy_update_cases IsStopped unset file c h (λ ps. h) λ ps t. h)

pub controller_step-IsStopped :
    (f : FloatOps) (e : ControllerEvent) (c : Controller)
    → IsStopped c
    → IsStopped (controller_step f e c)
unfolding controller_step
controller_step-IsStopped f (connects_to now wall fresh conn) c h = unfold on_accept in h
controller_step-IsStopped f refuses c h = unfold on_accept_error in h
controller_step-IsStopped f (receives now wall fresh conn msg) c h =
    on_message-IsStopped now wall fresh conn msg c h
controller_step-IsStopped f (breaks conn) c h = on_error-IsStopped conn c h
controller_step-IsStopped f (ticks unset file now is_open) c h =
    health_check-IsStopped f unset file now is_open c h
controller_step-IsStopped f clears c h = unfold clear_policies in h
controller_step-IsStopped f (adds p) c h = unfold add_policy in h
controller_step-IsStopped f stops c h =
    unfold shutdown_controller in
    (if_both (λ (r : Controller × List ControllerCall). IsStopped r.0) c.is_shutting_down h refl)

pub controller_run-IsStopped :
    (f : FloatOps) (es : List ControllerEvent) (c : Controller)
    → IsStopped c
    → IsStopped (controller_run f es c)
unfolding controller_run
controller_run-IsStopped f [] c h = h
controller_run-IsStopped f (e ∷ es) c h =
    controller_run-IsStopped f es (controller_step f e c) (controller_step-IsStopped f e c h)

-- A check that was under way when the shutdown came asks for no further one.
pub health_check-IsQuiet :
    (f : FloatOps) (unset : MessageType) (file : PolicyFile) (now : ℕ) (is_open : ℕ → Bool)
    (c : Controller)
    → IsStopped c
    → All IsQuiet (health_check f unset file now is_open c).1
health_check-IsQuiet f unset file now is_open c h =
    let c₁ = check_policy_update unset file c in
    let c₂ = (swept now is_open c₁).0 in
    let avg_load = get_aggregate_load f c₂.states in
    let last = health_check-IsStopped f unset file now is_open c h in
    unfold health_check swept start_health_check in
    All-append IsQuiet (swept now is_open c₁).1 _
      (sweep-IsQuiet now is_open c₁.sessions c₁.tracker c₁.messages)
      (All-append IsQuiet (apply_policies f now is_open avg_load c₂.policies c₂).1 _
        (apply_policies-IsQuiet f now avg_load is_open c₂.policies c₂) (rw last tt))
