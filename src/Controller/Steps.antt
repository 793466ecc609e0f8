-- ===== src/Controller/Steps.antt =====
-- src/controller/Controller.cpp as a state machine: the events that reach it.
use stradvision.Common.{ℕ, Bool, List, [], fault, ok, throw, ◌++◌, ◌∷◌}
use stradvision.Controller.{
  Controller, ControllerCall, HandlerResult, Policy, on_accept, on_accept_error, on_error,
  on_message,
}
use stradvision.Controller.Commands.{add_policy, clear_policies, shutdown_controller}
use stradvision.Controller.Config.{PolicyFile}
use stradvision.Controller.Health.{health_check}
use stradvision.Message.{Message, MessageType}
use stradvision.Store.{FloatOps}

-- What asio reports to the controller, with the clocks' readings and what `new` would return, and the
-- calls from outside. `ticks` is the timer, with what the file system answers.
pub data ControllerEvent : Type 0 where
  connects_to : ℕ → ℕ → ℕ → ℕ → ControllerEvent
  refuses : ControllerEvent
  receives : ℕ → ℕ → ℕ → ℕ → Message → ControllerEvent
  breaks : ℕ → ControllerEvent
  ticks : MessageType → PolicyFile → ℕ → (ℕ → Bool) → ControllerEvent
  clears : ControllerEvent
  adds : Policy → ControllerEvent
  stops : ControllerEvent

-- An exception that leaves `onMessage` is caught by the connection, which calls its error handler.
abbrev pub or_error : ℕ → Controller → HandlerResult → Controller
or_error conn c (ok (c', calls)) = c'
or_error conn c (throw what) = on_error conn c
or_error conn c fault = c

unfoldable pub controller_step : FloatOps → ControllerEvent → Controller → Controller
controller_step f (connects_to now wall fresh conn) c = (on_accept now wall fresh conn c).0
controller_step f refuses c = (on_accept_error c).0
controller_step f (receives now wall fresh conn msg) c =
    or_error conn c (on_message now wall fresh conn msg c)
controller_step f (breaks conn) c = on_error conn c
controller_step f (ticks unset file now is_open) c = (health_check f unset file now is_open c).0
controller_step f clears c = clear_policies c
controller_step f (adds p) c = add_policy p c
controller_step f stops c = (shutdown_controller c).0

abbrev pub calls_of : HandlerResult → List ControllerCall
calls_of (ok (c', calls)) = calls
calls_of (throw what) = []
calls_of fault = []

-- What the controller asks for at an event.
unfoldable pub step_calls : FloatOps → ControllerEvent → Controller → List ControllerCall
step_calls f (connects_to now wall fresh conn) c = (on_accept now wall fresh conn c).1
step_calls f refuses c = (on_accept_error c).1
step_calls f (receives now wall fresh conn msg) c = calls_of (on_message now wall fresh conn msg c)
step_calls f (ticks unset file now is_open) c = (health_check f unset file now is_open c).1
step_calls f stops c = (shutdown_controller c).1
step_calls f _ c = []

unfoldable pub controller_run : FloatOps → List ControllerEvent → Controller → Controller
controller_run f [] c = c
controller_run f (e ∷ es) c = controller_run f es (controller_step f e c)

unfoldable pub run_calls : FloatOps → List ControllerEvent → Controller → List ControllerCall
run_calls f [] c = []
run_calls f (e ∷ es) c = step_calls f e c ++ run_calls f es (controller_step f e c)
