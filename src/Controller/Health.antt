-- ===== src/Controller/Health.antt =====
-- src/controller/Controller.cpp: the timer's handler of `startHealthCheck`. The clock stands still during
-- one run of the handler, and `is_open` says which connections are open.
use stradvision.Session
use stradvision.Common.{
  ℕ, Bool, List, Option, [], codes, eqb, false, if◌then◌else◌, none, some, ◌&&◌, ◌++◌, ◌==◌, ◌∷◌,
}
use stradvision.Controller.{
  Controller, ControllerCall, Entry, Policy, PolicyCondition, Sessions, healthy_entry, on_links,
  sub_connection,
}
use stradvision.Controller.Commands.{get_next_id}
use stradvision.Controller.Config.{PolicyFile, check_policy_update, same_text, start_health_check}
use stradvision.Message.{Heap, MessageType, cmd_set_mode}
use stradvision.Metrics.{MetricsTracker}
use stradvision.Pool.{MessagePool, release}
use stradvision.Session.{Session, check_command_timeouts, get_set_mode_msg, track_command}
use stradvision.Store.{FloatOps, get_aggregate_load}

-- The session loop's result: the sessions that stay, and what it changed and asked for.
pub record Sweep : Type 0 where
  pub kept : Sessions
  pub calls : List ControllerCall
  pub tracker : MetricsTracker
  pub messages : MessagePool

-- A round of the session loop: the entry that stays, if it does.
pub record Round : Type 0 where
  pub stays : Option Entry
  pub calls : List ControllerCall
  pub tracker : MetricsTracker
  pub messages : MessagePool

unfoldable pub check_entry : ℕ → (ℕ → Bool) → Entry → MetricsTracker → MessagePool → Round
unfolding release
check_entry now is_open e t messages =
    if healthy_entry now is_open e
    then (let (s, calls, t') = check_command_timeouts now e.session messages.heap t in
        record {
          stays = some (record e { session = s });
          calls = on_links e.conn calls;
          tracker = t';
          messages = messages;
        })
    else (let (s, calls) = Session.disconnect e.session in
        record {
          stays = none;
          calls = on_links e.conn calls;
          tracker = sub_connection t;
          messages = release e.session.msg_set_mode messages;
        })

abbrev pub keep : ℕ → Option Entry → Sessions → Sessions
keep k none sessions = sessions
keep k (some e) sessions = (k, e) ∷ sessions

unfoldable pub sweep : ℕ → (ℕ → Bool) → Sessions → MetricsTracker → MessagePool → Sweep
sweep now is_open [] t messages = record { kept = []; calls = []; tracker = t; messages = messages }
sweep now is_open ((k, e) ∷ sessions) t messages =
    let r = check_entry now is_open e t messages in
    let rest = sweep now is_open sessions r.tracker r.messages in
    record rest { kept = keep k r.stays rest.kept; calls = r.calls ++ rest.calls }

-- The innermost loop of the policies: a mode command for every healthy session.
pub record Commanded : Type 0 where
  pub entries : Sessions
  pub calls : List ControllerCall
  pub heap : Heap

unfoldable pub command_entry :
    ℕ → (ℕ → Bool) → ℕ → ℕ → Entry → Heap → Entry × List ControllerCall × Heap
command_entry now is_open mode id e heap =
    if healthy_entry now is_open e
    then (let (s, heap', msg) = get_set_mode_msg e.session heap mode id in
        let s' = track_command now s heap' msg in
        (record e { session = s' }, on_links e.conn (Session.send s' heap' msg), heap'))
    else (e, [], heap)

unfoldable pub command_all : ℕ → (ℕ → Bool) → ℕ → ℕ → Sessions → Heap → Commanded
command_all now is_open mode id [] heap = record { entries = []; calls = []; heap = heap }
command_all now is_open mode id ((k, e) ∷ sessions) heap =
    let (e', calls, heap') = command_entry now is_open mode id e heap in
    let rest = command_all now is_open mode id sessions heap' in
    record rest { entries = (k, e') ∷ rest.entries; calls = calls ++ rest.calls }

unfoldable pub condition_met : FloatOps → ℕ → PolicyCondition → Bool
condition_met f avg_load p =
    if same_text p.op (codes ">")
    then f.gt avg_load p.threshold
    else (if same_text p.op (codes "<") then f.lt avg_load p.threshold else false)

-- The change of mode, and the commands that it takes.
unfoldable pub change_mode : ℕ → (ℕ → Bool) → ℕ → Controller → Controller × List ControllerCall
change_mode now is_open mode c =
    let c₁ = record c { overload_mode = mode == 1 } in
    let (c₂, next_id) = get_next_id cmd_set_mode c₁ in
    let done = command_all now is_open mode next_id c₂.sessions c₂.messages.heap in
    (
      record c₂ { sessions = done.entries; messages = record c₂.messages { heap = done.heap } },
      done.calls,
    )

unfoldable pub apply_policy :
    FloatOps → ℕ → (ℕ → Bool) → ℕ → Policy → Controller → Controller × List ControllerCall
apply_policy f now is_open avg_load p c =
    if condition_met f avg_load p.condition && (p.action.command == cmd_set_mode)
    then (let already_in_mode = eqb c.overload_mode (p.action.mode == 1) in
        if already_in_mode then (c, []) else change_mode now is_open p.action.mode c)
    else (c, [])

unfoldable pub apply_policies :
    FloatOps → ℕ → (ℕ → Bool) → ℕ → List Policy → Controller → Controller × List ControllerCall
apply_policies f now is_open avg_load [] c = (c, [])
apply_policies f now is_open avg_load (p ∷ ps) c =
    let (c', calls) = apply_policy f now is_open avg_load p c in
    let (c'', more) = apply_policies f now is_open avg_load ps c' in (c'', calls ++ more)

unfoldable pub swept : ℕ → (ℕ → Bool) → Controller → Controller × List ControllerCall
swept now is_open c =
    let done = sweep now is_open c.sessions c.tracker c.messages in
    (
      record c { sessions = done.kept; tracker = done.tracker; messages = done.messages },
      done.calls,
    )

unfoldable pub health_check :
    FloatOps
    → MessageType
    → PolicyFile
    → ℕ
    → (ℕ → Bool)
    → Controller
    → Controller × List ControllerCall
health_check f unset file now is_open c =
    let c₁ = check_policy_update unset file c in
    let (c₂, calls) = swept now is_open c₁ in
    let avg_load = get_aggregate_load f c₂.states in
    let (c₃, more) = apply_policies f now is_open avg_load c₂.policies c₂ in
    (c₃, calls ++ (more ++ start_health_check c₃))
