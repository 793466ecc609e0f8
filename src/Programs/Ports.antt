-- ===== src/Programs/Ports.antt =====
-- The port that the controller listens on, and what the programs return.
use stradvision.Controller.Config
use mathlib.Core.Option.{none-ne-some, some-injective}
use stradvision.Agent.{Agent, AgentCall}
use stradvision.Common.{
  ℤ, ℕ, List, Result, [], ap, arith, fault, length, ok, pos, refl, some, sym, throw, ◌%◌, ◌^◌, ◌↔◌,
  ◌∷◌, ◌≡◌, ◌≢◌,
}
use stradvision.Controller.{Controller, ControllerCall}
use stradvision.Controller.Config.{PolicyFile}
use stradvision.Message.{Heap, MessageType}
use stradvision.Payload.{◌>>=◌}
use stradvision.Pool.{get_instance}
use stradvision.Programs.{
  Ended, agent_body, agent_main, caught, controller_main, nothing_wrong, to_i16, to_u16, usage_text,
}

short_port : (n : ℕ) → to_u16 (to_i16 (n % 2 ^ 16)) ≡ n % 2 ^ 16
short_port n = ground arith

module _ (stoi : List ℕ → Result ℤ) (bind : List ℕ → ℕ → Result (Unit {0})) (unset : MessageType)
    (file : PolicyFile) (unset_time : ℕ) (heap : Heap)
    (run : Controller → List ControllerCall → Result (Unit {0})) where
  -- A controller whose first argument is read as a number that is not negative listens on that number's
  -- last 16 bits, as a number without a sign, though a `short` carries it: it binds this port and then
  -- 9090 for the metrics, runs the new controller, and returns 0; an exception of either binding or of the
  -- run ends the program with its text, and 0 as well.
  pub controller_port :
      (name arg : List ℕ) (rest : List (List ℕ)) (n : ℕ)
      → stoi arg ≡ ok (pos n)
      → controller_main stoi bind unset file unset_time heap run (name ∷ arg ∷ rest)
        ≡ caught (
            bind [] (n % 2 ^ 16) >>= λ x. bind (n % 2 ^ 16 ∷ []) 9090 >>= λ y.
            let (ctrl, calls) = Config.create unset file unset_time (get_instance heap) in
            run ctrl calls >>= λ z. ok nothing_wrong)
  unfolding controller_main
  controller_port name arg rest n h = rw (h, short_port n)

-- A program that returns 0 if it does not end in a fault.
Zero : Result Ended → Type 0
Zero r = (e : Ended) → caught r ≡ some e → e.code ≡ 0

bind-Zero :
    {A : Type 0} (r : Result A) (f : A → Result Ended) → ((a : A) → Zero (f a)) → Zero (r >>= f)
unfolding Zero
bind-Zero (ok a) f z e h = z a e h
bind-Zero (throw what) f z e h = ap (λ (x : Ended). x.code) (sym (some-injective _ _ h))
bind-Zero fault f z e h = absurd (none-ne-some _ h)

ok-Zero : Zero (ok nothing_wrong)
unfolding Zero
ok-Zero e h = ap (λ (x : Ended). x.code) (sym (some-injective _ _ h))

module _ (stoul : List ℕ → Result ℕ) (resolve : List ℕ → List ℕ → Result (Unit {0})) (clock : ℕ → ℕ)
    (run : Agent → List AgentCall → Result (Unit {0})) where
  body-Zero :
      (name host port id : List ℕ)
      → Zero (agent_body stoul resolve clock run (name ∷ host ∷ port ∷ id ∷ []))
  body-Zero name host port id =
      bind-Zero (stoul id) _
        (λ n. bind-Zero (resolve host port) _ (λ x. bind-Zero (run _ _) _ (λ y. ok-Zero)))

  usage :
      (n : ℕ) (e : Ended)
      → some (record { code = 1; errors = usage_text }) ≡ some e
      → n ≢ 4
      → (e.code ≡ 1) ↔ (n ≢ 4)
  usage n e h ne = (λ c. ne, λ c. ap (λ (x : Ended). x.code) (sym (some-injective _ _ h)))

  -- An agent that ends, and in no fault, returns 1 exactly when it is not given three arguments behind its
  -- name; so it returns 0 after an exception, a failed connection included.
  pub agent_code :
      (argv : List (List ℕ)) (e : Ended)
      → agent_main stoul resolve clock run argv ≡ some e
      → (e.code ≡ 1) ↔ (length argv ≢ 4)
  unfolding agent_main Zero
  agent_code [] e h = usage 0 e h (λ q. omega arith)
  agent_code (a ∷ []) e h = usage 1 e h (λ q. omega arith)
  agent_code (a ∷ b ∷ []) e h = usage 2 e h (λ q. omega arith)
  agent_code (a ∷ b ∷ c ∷ []) e h = usage 3 e h (λ q. omega arith)
  agent_code (name ∷ host ∷ port ∷ id ∷ []) e h =
      (λ one q. omega (arith, one, body-Zero name host port id e h), λ ne. absurd (ne refl))
  agent_code (a ∷ b ∷ c ∷ d ∷ f ∷ rest) e h =
      usage (length (a ∷ b ∷ c ∷ d ∷ f ∷ rest)) e h (λ q. omega arith)
