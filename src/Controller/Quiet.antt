-- ===== src/Controller/Quiet.antt =====
-- The calls of the controller that ask neither for another connection nor for another check.
use stradvision.Common.{
  ℕ, All, All-append, Bool, Bool-cases, List, [], eqb, if_both, inl, inr, ◌&&◌, ◌==◌, ◌∷◌,
}
use stradvision.Controller.{
  Controller, ControllerCall, Entry, Policy, Sessions, accepts, checks_in, healthy_entry, on_links,
}
use stradvision.Controller.Commands.{flush_all}
use stradvision.Controller.Health.{
  apply_policies, apply_policy, change_mode, check_entry, command_all, command_entry, condition_met,
  sweep,
}
use stradvision.Message.{Heap, cmd_set_mode}
use stradvision.Metrics.{MetricsTracker}
use stradvision.Pool.{MessagePool}
use stradvision.Session.{Call, flush_pending_commands}
use stradvision.Store.{FloatOps}

abbrev pub IsQuiet : ControllerCall → Type 0
IsQuiet accepts = ⊥
IsQuiet (checks_in n) = ⊥
IsQuiet _ = Unit {0}

pub on_links-IsQuiet : (conn : ℕ) (calls : List Call) → All IsQuiet (on_links conn calls)
on_links-IsQuiet conn [] = tt
on_links-IsQuiet conn (call ∷ calls) = (tt, on_links-IsQuiet conn calls)

pub flush_all-IsQuiet :
    (heap : Heap) (sessions : Sessions) → All IsQuiet (flush_all heap sessions).1
unfolding flush_all
flush_all-IsQuiet heap [] = tt
flush_all-IsQuiet heap ((k, e) ∷ sessions) =
    All-append IsQuiet (on_links e.conn (flush_pending_commands e.session heap).1) _
      (on_links-IsQuiet e.conn _) (flush_all-IsQuiet heap sessions)

check_entry-IsQuiet :
    (now : ℕ) (is_open : ℕ → Bool) (e : Entry) (t : MetricsTracker) (messages : MessagePool)
    → All IsQuiet (check_entry now is_open e t messages).calls
unfolding check_entry
check_entry-IsQuiet now is_open e t messages = elim (Bool-cases (healthy_entry now is_open e)) [
  | inl h ↦ rw h (on_links-IsQuiet e.conn _)
  | inr h ↦ rw h (on_links-IsQuiet e.conn _)
]

pub sweep-IsQuiet :
    (now : ℕ) (is_open : ℕ → Bool) (sessions : Sessions) (t : MetricsTracker)
    (messages : MessagePool)
    → All IsQuiet (sweep now is_open sessions t messages).calls
unfolding sweep
sweep-IsQuiet now is_open [] t messages = tt
sweep-IsQuiet now is_open ((k, e) ∷ sessions) t messages =
    let r = check_entry now is_open e t messages in
    All-append IsQuiet r.calls _ (check_entry-IsQuiet now is_open e t messages)
      (sweep-IsQuiet now is_open sessions r.tracker r.messages)

command_entry-IsQuiet :
    (now mode id : ℕ) (is_open : ℕ → Bool) (e : Entry) (heap : Heap)
    → All IsQuiet (command_entry now is_open mode id e heap).1
unfolding command_entry
command_entry-IsQuiet now mode id is_open e heap = elim (Bool-cases (healthy_entry now is_open e)) [
  | inl h ↦ rw h (on_links-IsQuiet e.conn _)
  | inr h ↦ rw h tt
]

command_all-IsQuiet :
    (now mode id : ℕ) (is_open : ℕ → Bool) (sessions : Sessions) (heap : Heap)
    → All IsQuiet (command_all now is_open mode id sessions heap).calls
unfolding command_all
command_all-IsQuiet now mode id is_open [] heap = tt
command_all-IsQuiet now mode id is_open ((k, e) ∷ sessions) heap =
    let r = command_entry now is_open mode id e heap in
    All-append IsQuiet r.1 _ (command_entry-IsQuiet now mode id is_open e heap)
      (command_all-IsQuiet now mode id is_open sessions r.2)

apply_policy-IsQuiet :
    (f : FloatOps) (now avg_load : ℕ) (is_open : ℕ → Bool) (p : Policy) (c : Controller)
    → All IsQuiet (apply_policy f now is_open avg_load p c).1
unfolding apply_policy change_mode
apply_policy-IsQuiet f now avg_load is_open p c =
    if_both P (condition_met f avg_load p.condition && (p.action.command == cmd_set_mode))
      (if_both P (eqb c.overload_mode (p.action.mode == 1)) tt
        (command_all-IsQuiet now p.action.mode _ is_open _ _))
      tt
  where
    P : Controller × List ControllerCall → Type 0
    P r = All IsQuiet r.1

pub apply_policies-IsQuiet :
    (f : FloatOps) (now avg_load : ℕ) (is_open : ℕ → Bool) (ps : List Policy) (c : Controller)
    → All IsQuiet (apply_policies f now is_open avg_load ps c).1
unfolding apply_policies
apply_policies-IsQuiet f now avg_load is_open [] c = tt
apply_policies-IsQuiet f now avg_load is_open (p ∷ ps) c =
    All-append IsQuiet (apply_policy f now is_open avg_load p c).1 _
      (apply_policy-IsQuiet f now avg_load is_open p c)
      (apply_policies-IsQuiet f now avg_load is_open ps _)
