-- ===== src/Programs.antt =====
-- src/agent/main.cpp and src/controller/main.cpp. `std::stoul`, `std::stoi`, the resolver, the binding of
-- a port and `ioc.run()`, which runs the completion handlers until none is left, are arguments; each may
-- throw. The set up of the log is left out.
pub mod Ports
use stradvision.Agent
use stradvision.Controller.Config
use stradvision.Agent.{Agent, AgentCall}
use stradvision.Comm.Writes.{run}
use stradvision.Common.{
  ℤ, ℕ, List, Option, Result, [], codes, fault, if◌then◌else◌, ltb, negsuc, none, ok, pos, some,
  throw, u32, ◌%◌, ◌++◌, ◌-◌, ◌^◌, ◌∷◌,
}
use stradvision.Controller.{Controller, ControllerCall}
use stradvision.Controller.Config.{PolicyFile}
use stradvision.Message.{Heap, MessageType}
use stradvision.Payload.{◌>>=◌}
use stradvision.Pool.{get_instance}

-- What a program returns and what it writes to `std::cerr`.
pub record Ended : Type 0 where
  pub code : ℕ
  pub errors : List ℕ

abbrev pub nothing_wrong : Ended
nothing_wrong = record { code = 0; errors = [] }

abbrev pub usage_text : List ℕ
usage_text = codes "Usage: agent <host> <port> <agent_id>\n"

-- The `catch` of `main`; a fault is no exception.
abbrev pub caught : Result Ended → Option Ended
caught (ok e) = some e
caught (throw what) = some (record { code = 0; errors = codes "Exception: " ++ what ++ codes "\n" })
caught fault = none

module _ (stoul : List ℕ → Result ℕ) (resolve : List ℕ → List ℕ → Result (Unit {0})) (clock : ℕ → ℕ)
    (run : Agent → List AgentCall → Result (Unit {0})) where
  abbrev pub agent_body : List (List ℕ) → Result Ended
  agent_body (name ∷ host ∷ port ∷ id ∷ []) = do
    n ← stoul id
    let app = Agent.create (u32 n) (clock 0) (clock 1) (clock 2) (clock 3) (clock 4)
    _ ← resolve host port
    _ ← run app (Agent.start app)
    ok nothing_wrong
  agent_body _ = ok (record { code = 1; errors = usage_text })

  unfoldable pub agent_main : List (List ℕ) → Option Ended
  agent_main argv = caught (agent_body argv)

-- `static_cast<short>`, and the `unsigned short` of an endpoint.
abbrev pub to_u16 : ℤ → ℕ
to_u16 (pos n) = n % 2 ^ 16
to_u16 (negsuc n) = 2 ^ 16 - 1 - n % 2 ^ 16

abbrev pub to_i16 : ℕ → ℤ
to_i16 w = if ltb w (2 ^ 15) then pos w else negsuc (2 ^ 16 - 1 - w)

-- `bind` is given the ports that the program has bound before.
module _ (stoi : List ℕ → Result ℤ) (bind : List ℕ → ℕ → Result (Unit {0})) (unset : MessageType)
    (file : PolicyFile) (unset_time : ℕ) (heap : Heap)
    (run : Controller → List ControllerCall → Result (Unit {0})) where
  abbrev pub chosen_port : List (List ℕ) → Result ℤ
  chosen_port (name ∷ port ∷ _) = do p ← stoi port; ok (to_i16 (to_u16 p))
  chosen_port _ = ok (pos 9000)

  -- The construction of the controller, the acceptor and the metrics server included, and `ioc.run()`.
  abbrev pub serve : ℤ → Result Ended
  serve port = do
    _ ← bind [] (to_u16 port)
    _ ← bind (to_u16 port ∷ []) 9090
    let (ctrl, calls) = Config.create unset file unset_time (get_instance heap)
    _ ← run ctrl calls
    ok nothing_wrong

  abbrev pub controller_body : List (List ℕ) → Result Ended
  controller_body argv = do port ← chosen_port argv; serve port

  unfoldable pub controller_main : List (List ℕ) → Option Ended
  controller_main argv = caught (controller_body argv)
