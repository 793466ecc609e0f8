-- ===== src/Controller/Cases.antt =====
-- Everything that `onMessage` may do, as one case distinction for the properties of its result.
use stradvision.Common.{
  ℕ, All, Bool, List, Option, Option-cases, Result, [], eqb, fault, if_both, inl, inr, none, ok,
  some, throw, ◌&&◌, ◌==◌, ◌∷◌, ◌≡◌,
}
use stradvision.Controller.{
  Controller, ControllerCall, Entry, HandlerResult, Policy, acked, on_link, on_message,
  on_registered, on_unregistered, register, session_of, with_session,
}
use stradvision.Controller.Config.{
  PolicyFile, check_policy_update, is_newer, is_true, load_policies, read_entries, set_policies,
}
use stradvision.Controller.Health.{apply_policies, apply_policy, change_mode, condition_met}
use stradvision.Controller.Quiet.{IsQuiet}
use stradvision.Message.{Message, MessageType, ack, cmd_set_mode, heartbeat, hello, nack, state}
use stradvision.Payload.{
  deserialize_ack, deserialize_hello, deserialize_nack, deserialize_state, ◌>>=◌,
}
use stradvision.Session.{disconnects, update_heartbeat}
use stradvision.Store.{FloatOps, StateStore, no_state}

-- A property of results that holds in each of the cases.
pub record Covers (Q : HandlerResult → Type 0) (now wall fresh conn : ℕ) (c : Controller)
    : Type 0 where
  pub throws : (what : List ℕ) → Q (throw what)
  pub faults : Q fault
  pub stays : (calls : List ControllerCall) → All IsQuiet calls → Q (ok (c, calls))
  pub registers : (id : ℕ) → Q (ok (register now wall fresh conn id c, []))
  pub beats :
      (k : ℕ) (e : Entry)
      → session_of conn c ≡ some (k, e)
      → Q (ok (with_session k e (update_heartbeat now e.session) c, []))
  pub stores : (states : StateStore) → Q (ok (record c { states = states }, []))
  pub acks :
      (k id : ℕ) (e : Entry) → session_of conn c ≡ some (k, e) → Q (ok (acked now k e id c, []))

module _ (Q : HandlerResult → Type 0) (now wall fresh conn : ℕ) (c : Controller)
    (q : Covers Q now wall fresh conn c) where
  read_cases :
      {P : Type 0} (r : Result P) (next : P → HandlerResult)
      → ((p : P) → Q (next p))
      → Q (r >>= next)
  read_cases (ok p) next h = h p
  read_cases (throw what) next h = q.throws what
  read_cases fault next h = q.faults

  registered_cases :
      (k : ℕ) (msg : Message) (e : Entry)
      → session_of conn c ≡ some (k, e)
      → Q (on_registered now msg k e c)
  unfolding on_registered
  registered_cases k msg e h =
      let type = msg.header.type in
      if_both Q (type == hello) (q.stays [] tt) (
        if_both Q (type == heartbeat) (q.beats k e h) (
          if_both Q (type == state)
            (read_cases (deserialize_state no_state msg.payload) _ λ p. q.stores _)
            (if_both Q (type == ack)
              (read_cases (deserialize_ack (record { cmd_id = 0 }) msg.payload) _
                λ p. q.acks k p.cmd_id e h)
              (if_both Q (type == nack)
                (read_cases (deserialize_nack (record { cmd_id = 0; reason = [] }) msg.payload) _
                  λ p. q.acks k p.cmd_id e h)
                (q.stays [] tt)))))

  unregistered_cases : (msg : Message) → Q (on_unregistered now wall fresh conn msg c)
  unfolding on_unregistered
  unregistered_cases msg =
      if_both Q (msg.header.type == hello)
        (read_cases (deserialize_hello (record { agent_id = 0; version = 0 }) msg.payload) _
          λ p. q.registers p.agent_id)
        (q.stays (on_link conn disconnects ∷ []) (tt, tt))

  pub on_message_cases : (msg : Message) → Q (on_message now wall fresh conn msg c)
  unfolding on_message
  on_message_cases msg = elim (Option-cases (session_of conn c)) [
    | inl e ↦ rw e (unregistered_cases msg)
    | inr ((k, w), e) ↦ rw e (registered_cases k msg w e)
  ]

-- A property that a change of the policies keeps is kept by a check of the policy file.
pub check_policy_update_cases :
    (Q : Controller → Type 0) (unset : MessageType) (file : PolicyFile) (c : Controller)
    → Q c
    → ((ps : List Policy) → Q (record c { policies = ps }))
    → ((ps : List Policy) (t : ℕ) → Q (record c { policies = ps; last_policy_file_time = t }))
    → Q (check_policy_update unset file c)
unfolding check_policy_update load_policies
check_policy_update_cases Q unset file c same read timed =
    if_both Q (is_true file.is_there && is_newer file.write_time c.last_policy_file_time)
      (if_both Q (is_true file.is_there)
        (set_cases file.write_time (read_entries unset file.entries)) same)
      same
  where
    set_cases : (time : Option ℕ) (ps : Option (List Policy)) → Q (set_policies time ps c)
    set_cases time none = same
    set_cases none (some ps) = read ps
    set_cases (some t) (some ps) = timed ps t

-- A property that every change of mode keeps is kept by the loop over the policies.
pub apply_policies_cases :
    (Q : Controller → Type 0) (f : FloatOps) (now avg_load : ℕ) (is_open : ℕ → Bool)
    (ps : List Policy) (c : Controller)
    → ((mode : ℕ) (x : Controller) → Q x → Q (change_mode now is_open mode x).0)
    → Q c
    → Q (apply_policies f now is_open avg_load ps c).0
unfolding apply_policies apply_policy
apply_policies_cases Q f now avg_load is_open [] c changes h = h
apply_policies_cases Q f now avg_load is_open (p ∷ ps) c changes h =
    apply_policies_cases Q f now avg_load is_open ps (apply_policy f now is_open avg_load p c).0
      changes
      (if_both P (condition_met f avg_load p.condition && (p.action.command == cmd_set_mode))
        (if_both P (eqb c.overload_mode (p.action.mode == 1)) h (changes p.action.mode c h)) h)
  where
    P : Controller × List ControllerCall → Type 0
    P r = Q r.0
