-- ===== src/Agent/Lifecycle.antt =====
-- Connection errors, retries and shutdown.
use Prim.Native.Nat.{ℕ, min}
use stradvision.Agent.{
  Agent, AgentCall, handle_connection_error, max_attempts, retries_in, shutdown_agent,
}
use stradvision.Common.{
  List, [], arith, inl, inr, suc, true, zero, ◌++◌, ◌+◌, ◌-◌, ◌<◌, ◌∙◌, ◌∷◌, ◌≡◌, ◌≤◌, ◌⊎◌,
}

-- A number of connection errors with no connection between them.
unfoldable pub failures : ℕ → Agent → Agent × List AgentCall
failures zero a = (a, [])
failures (suc n) a =
    let (a', calls) = handle_connection_error a in
    let (a'', calls') = failures n a' in (a'', calls ++ calls')

abbrev pub retry_of : AgentCall → ℕ
retry_of (retries_in n) = 1
retry_of _ = 0

abbrev pub retries : List AgentCall → ℕ
retries [] = 0
retries (call ∷ calls) = retry_of call + retries calls

retries-append : (xs ys : List AgentCall) → retries (xs ++ ys) ≡ retries xs + retries ys
retries-append [] ys = omega arith
retries-append (x ∷ xs) ys = omega (arith, retries-append xs ys)

error_step :
    (a : Agent)
    → let (a', calls) = handle_connection_error a in
      (((a.attempts < max_attempts) × (a'.attempts ≡ a.attempts + 1) × (retries calls ≡ 1))
        ⊎ ((max_attempts ≤ a.attempts) × (a'.attempts ≡ a.attempts) × (retries calls ≡ 0)))
unfolding handle_connection_error
error_step a = ground arith

-- However many connection errors follow each other without a connection between them, at most as many
-- retries are started as were left of three, and exactly that many if there are errors enough.
pub failures_bounded :
    (n : ℕ) (a : Agent)
    → a.attempts ≤ max_attempts
    → retries (failures n a).1 ≡ min n (max_attempts - a.attempts)
unfolding failures
failures_bounded zero a l = omega arith
failures_bounded (suc n) a l =
    retries-append (handle_connection_error a).1 (failures n (handle_connection_error a).0).1
    ∙ elim (error_step a) [
      | inl (h, e, r) ↦
          omega (arith, e, r, failures_bounded n (handle_connection_error a).0 (omega (arith, e)))
      | inr (h, e, r) ↦
          omega (arith, e, r, failures_bounded n (handle_connection_error a).0 (omega (arith, e)))
    ]

-- An agent that was asked to stop while connected starts a retry when its connection then ends, with
-- fewer than three attempts behind it.
pub shutdown_reconnects :
    (a : Agent)
    → a.has_link ≡ true
    → a.attempts < max_attempts
    → let (a', stopping) = shutdown_agent a in
      let (a'', calls) = handle_connection_error a' in
      (a'.is_stopping ≡ true) × (a''.is_stopping ≡ true) × (retries calls ≡ 1)
unfolding shutdown_agent handle_connection_error
shutdown_reconnects a l h = ground arith
