-- ===== src/Tests/Controllers.antt =====
-- The controller's sessions at concrete inputs.
use mathlib.Core.Option.{none-ne-some}
use stradvision.Session
use stradvision.Bytes.{read_u32_be, write_u32_be}
use stradvision.Common.{
  ℕ, IsU32, List, [], arith, false, ltb, none, refl, some, true, ◌+◌, ◌/◌, ◌∷◌, ◌≡◌,
}
use stradvision.Controller.{
  Controller, Entry, do_accept, lock, new_session, on_accept, on_message, on_unregistered, register,
  session_of,
}
use stradvision.Controller.Handled.{Moves}
use stradvision.Controller.Accounts.{all_downs, all_ups, controller_run-Moves}
use stradvision.Controller.Config.{PolicyFile, create, load_policies}
use stradvision.Controller.Gauge.{gauge}
use stradvision.Controller.Preserved.{IsConsistent}
use stradvision.Controller.Runs.{controller_run-IsConsistent}
use stradvision.Controller.Steps.{
  ControllerEvent, breaks, connects_to, controller_run, controller_step, receives, stops, ticks,
}
use stradvision.Dict.{erase, find, put}
use stradvision.Message.{Message, cmd_set_mode, hello, message}
use stradvision.Payload.{deserialize_hello, serialize_hello}
use stradvision.Pool.{MessagePool, acquire, release, split_back}
use stradvision.Session.{set_agent_id}
use stradvision.Store.{FloatOps}

-- Floats that are natural numbers.
abbrev pub naturals : FloatOps
naturals = record { add = λ a b. a + b; div_count = λ a n. a / n; gt = λ a b. ltb b a; lt = ltb }

abbrev no_messages : MessagePool
no_messages = record { pool = []; heap = λ p. message 0 cmd_set_mode [] 0 0 0 }

abbrev pub nothing_there : PolicyFile
nothing_there = record { is_there = some false; write_time = none; entries = none }

-- A controller after its start.
abbrev pub started : Controller
started = (create cmd_set_mode nothing_there 0 no_messages).0

pub started-IsConsistent : IsConsistent started
unfolding create load_policies find
started-IsConsistent = record {
  sorted = tt;
  distinct = λ i j e e' f g same. absurd (none-ne-some _ f);
  entries = λ k e f. absurd (none-ne-some _ f);
}

started-IsU32 : IsU32 (gauge started)
unfolding create load_policies
started-IsU32 = omega arith

abbrev hello_of : ℕ → Message
hello_of id = message 0 hello (serialize_hello (record { agent_id = id; version = 1 })) 0 1 0

abbrev events : List ControllerEvent
events =
    connects_to 0 0 100 5
    ∷ receives 1 1 200 5 (hello_of 7)
    ∷ connects_to 2 2 300 6
    ∷ receives 3 3 400 6 (hello_of 7)
    ∷ ticks cmd_set_mode nothing_there 4 (λ conn. true)
    ∷ breaks 5
    ∷ stops
    ∷ []

controller_run-IsConsistent_example : IsConsistent (controller_run naturals events started)
controller_run-IsConsistent_example =
    controller_run-IsConsistent naturals events started started-IsConsistent

controller_run-Moves_example :
    Moves
      (all_ups events)
      (all_downs naturals events started)
      (gauge started)
      (gauge (controller_run naturals events started))
controller_run-Moves_example = controller_run-Moves naturals events started started-IsU32

-- Agent 7 on connection 5.
abbrev pub joined : Controller
joined =
    controller_run naturals (connects_to 0 0 100 5 ∷ receives 1 1 200 5 (hello_of 7) ∷ []) started

pub joined-IsConsistent : IsConsistent joined
joined-IsConsistent =
    controller_run-IsConsistent naturals
      (connects_to 0 0 100 5 ∷ receives 1 1 200 5 (hello_of 7) ∷ []) started started-IsConsistent

abbrev pub agent_seven : Entry
agent_seven = record {
  sid = 0;
  conn = 5;
  session = record {
    has_conn = true;
    id = 7;
    last_heartbeat = 1;
    pending_cmds = [];
    payload_set_mode = record { mode = 0 };
    msg_set_mode = 100;
    has_tracker = true;
  };
}

pub joined_session : session_of 5 joined ≡ some (7, agent_seven)
unfolding controller_run controller_step create load_policies on_accept on_message on_unregistered
    register session_of lock find put erase message serialize_hello deserialize_hello new_session
    Session.create set_agent_id acquire release split_back do_accept write_u32_be read_u32_be
joined_session = refl

-- Its session's message object is a mode command, and no mode command was sent so far.
pub joined_ready :
    ((joined.messages.heap agent_seven.session.msg_set_mode).header.type ≡ cmd_set_mode)
    × (find cmd_set_mode joined.message_counters ≡ none)
unfolding controller_run controller_step create load_policies on_accept on_message on_unregistered
    register session_of lock find put erase message serialize_hello deserialize_hello new_session
    Session.create set_agent_id acquire release split_back do_accept write_u32_be read_u32_be
joined_ready = (refl, refl)
