-- ===== src/Controller/Shutdown.antt =====
-- The shutdown of the controller, and how it goes on running.
use mathlib.Core.Option
use stradvision.Comm.{is_empty}
use stradvision.Common.{
  ℕ, All, All-append, Bool, Bool-cases, List, Option, [], ap, false, if◌then◌else◌, inl, inr, none,
  refl, some, sym, true, ◌++◌, ◌∙◌, ◌∷◌, ◌≡◌,
}
use stradvision.Common.Perms.{flat}
use stradvision.Controller.{
  Controller, ControllerCall, Entry, Sessions, cancels_accept, cancels_checks, do_accept, on_accept,
  on_accept_error, on_link, on_links,
}
use stradvision.Controller.Cases.{on_message_cases}
use stradvision.Controller.Commands.{flush_all, shutdown_controller}
use stradvision.Controller.Quiet.{IsQuiet}
use stradvision.Controller.Runs.{find-flush_all, flushed?}
use stradvision.Controller.Steps.{
  ControllerEvent, adds, breaks, calls_of, clears, connects_to, controller_run, controller_step,
  receives, refuses, run_calls, step_calls, stops, ticks,
}
use stradvision.Controller.Stopping.{
  IsStopped, controller_run-IsStopped, controller_step-IsStopped, health_check-IsQuiet,
}
use stradvision.Dict.{find}
use stradvision.Message.{Heap}
use stradvision.Session.{
  Call, PendingCommand, Session, flush_pending_commands, flushes, on_conn, send_all, sends,
}
use stradvision.Store.{FloatOps}

flush-pending :
    (s : Session) (heap : Heap) → (flush_pending_commands s heap).0 ≡ record s { pending_cmds = [] }
unfolding flush_pending_commands
flush-pending s heap = no_more s.pending_cmds refl
  where
    IsIdle : Session × List Call → Type 0
    IsIdle r = r.0 ≡ record s { pending_cmds = [] }

    no_more :
        (d : List (ℕ × PendingCommand))
        → s.pending_cmds ≡ d
        → IsIdle (
            if is_empty d then (s, on_conn s flushes) else (
              record s { pending_cmds = [] },
              send_all s heap s.pending_cmds ++ on_conn s flushes,
            ))
    no_more [] e = ap (λ (x : List (ℕ × PendingCommand)). record s { pending_cmds = x }) e
    no_more (x ∷ d) e = refl

-- The session without its pending commands.
abbrev pub idle : Entry → Entry
idle e = record e { session = record e.session { pending_cmds = [] } }

flushed?-idle : (heap : Heap) (o : Option Entry) → flushed? heap o ≡ Option.map idle o
flushed?-idle heap none = refl
flushed?-idle heap (some e) = rw (flush-pending e.session heap)

if_true {ℓ} : {A : Type ℓ} {b : Bool} {x : A} (y : A) → b ≡ true → (if b then x else y) ≡ x
if_true {A = A} {x = x} y e = ap {B = A} (λ (t : Bool). if t then x else y) e

-- What a shutdown asks of a session's connection: the pending commands in the order of their ids, and
-- then the end once they are written.
abbrev pub farewell : Heap → ℕ × Entry → List ControllerCall
farewell heap (k, e) =
    if e.session.has_conn
    then flat (λ x. on_link e.conn (sends (heap x.1.msg)) ∷ []) e.session.pending_cmds
      ++ (on_link e.conn flushes ∷ [])
    else []

abbrev last_sends : ℕ → Heap → List (ℕ × PendingCommand) → List ControllerCall
last_sends conn heap d =
    flat (λ x. on_link conn (sends (heap x.1.msg)) ∷ []) d ++ (on_link conn flushes ∷ [])

on_conn_on : (s : Session) (call : Call) → s.has_conn ≡ true → on_conn s call ≡ call ∷ []
on_conn_on s call h = if_true [] h

on_conn_off : (s : Session) (call : Call) → s.has_conn ≡ false → on_conn s call ≡ []
on_conn_off s call h = ap {B = List Call} (λ (t : Bool). if t then call ∷ [] else []) h

send_all-on :
    (conn : ℕ) (s : Session) (heap : Heap) (d : List (ℕ × PendingCommand))
    → s.has_conn ≡ true
    → on_links conn (send_all s heap d ++ on_conn s flushes) ≡ last_sends conn heap d
unfolding send_all
send_all-on conn s heap [] h = ap (on_links conn) (on_conn_on s flushes h)
send_all-on conn s heap ((k, pc) ∷ d) h =
    ap (λ calls. on_links conn ((calls ++ send_all s heap d) ++ on_conn s flushes))
      (on_conn_on s (sends (heap pc.msg)) h)
    ∙ ap (λ calls. on_link conn (sends (heap pc.msg)) ∷ calls) (send_all-on conn s heap d h)

send_all-off :
    (conn : ℕ) (s : Session) (heap : Heap) (d : List (ℕ × PendingCommand))
    → s.has_conn ≡ false
    → on_links conn (send_all s heap d ++ on_conn s flushes) ≡ []
unfolding send_all
send_all-off conn s heap [] h = ap (on_links conn) (on_conn_off s flushes h)
send_all-off conn s heap ((k, pc) ∷ d) h =
    ap (λ calls. on_links conn ((calls ++ send_all s heap d) ++ on_conn s flushes))
      (on_conn_off s (sends (heap pc.msg)) h)
    ∙ send_all-off conn s heap d h

send_all-linked :
    (conn : ℕ) (s : Session) (heap : Heap) (d : List (ℕ × PendingCommand))
    → on_links conn (send_all s heap d ++ on_conn s flushes)
      ≡ (if s.has_conn then last_sends conn heap d else [])
send_all-linked conn s heap d = elim (Bool-cases s.has_conn) [
  | inl h ↦ send_all-on conn s heap d h ∙ sym (if_true [] h)
  | inr h ↦
      send_all-off conn s heap d h
      ∙ sym
          (ap {B = List ControllerCall} (λ (t : Bool). if t then last_sends conn heap d else []) h)
]

flush-calls :
    (conn : ℕ) (s : Session) (heap : Heap)
    → on_links conn (flush_pending_commands s heap).1
      ≡ (if s.has_conn then last_sends conn heap s.pending_cmds else [])
unfolding flush_pending_commands send_all
flush-calls conn s heap = by_pending s.pending_cmds
  where
    IsLinked : List (ℕ × PendingCommand) → Session × List Call → Type 0
    IsLinked d r = on_links conn r.1 ≡ (if s.has_conn then last_sends conn heap d else [])

    by_pending :
        (d : List (ℕ × PendingCommand))
        → IsLinked d (
            if is_empty d
            then (s, on_conn s flushes)
            else (record s { pending_cmds = [] }, send_all s heap d ++ on_conn s flushes))
    by_pending [] = send_all-linked conn s heap []
    by_pending (x ∷ d) = send_all-linked conn s heap (x ∷ d)

flush_all-calls :
    (heap : Heap) (sessions : Sessions)
    → (flush_all heap sessions).1 ≡ flat (farewell heap) sessions
unfolding flush_all
flush_all-calls heap [] = refl
flush_all-calls heap ((k, e) ∷ sessions) =
    ap (λ calls. calls ++ (flush_all heap sessions).1) (flush-calls e.conn e.session heap)
    ∙ ap (λ calls. farewell heap (k, e) ++ calls) (flush_all-calls heap sessions)

step_calls-IsQuiet :
    (f : FloatOps) (e : ControllerEvent) (c : Controller)
    → IsStopped c
    → All IsQuiet (step_calls f e c)
unfolding step_calls
step_calls-IsQuiet f (connects_to now wall fresh conn) c h =
    unfold on_accept do_accept in rw h (tt, tt)
step_calls-IsQuiet f refuses c h = unfold on_accept_error do_accept in rw h tt
step_calls-IsQuiet f (receives now wall fresh conn msg) c h =
    on_message_cases (λ r. All IsQuiet (calls_of r)) now wall fresh conn c
      (record {
        throws = λ what. tt;
        faults = tt;
        stays = λ calls rests. rests;
        registers = λ id. tt;
        beats = λ k e p. tt;
        stores = λ states. tt;
        acks = λ k id e p. tt;
      })
      msg
step_calls-IsQuiet f (breaks conn) c h = tt
step_calls-IsQuiet f (ticks unset file now is_open) c h =
    health_check-IsQuiet f unset file now is_open c h
step_calls-IsQuiet f clears c h = tt
step_calls-IsQuiet f (adds p) c h = tt
step_calls-IsQuiet f stops c h = unfold shutdown_controller in rw h tt

run_calls-IsQuiet :
    (f : FloatOps) (es : List ControllerEvent) (c : Controller)
    → IsStopped c
    → All IsQuiet (run_calls f es c)
unfolding run_calls
run_calls-IsQuiet f [] c h = tt
run_calls-IsQuiet f (e ∷ es) c h =
    All-append IsQuiet (step_calls f e c) _ (step_calls-IsQuiet f e c h)
      (run_calls-IsQuiet f es (controller_step f e c) (controller_step-IsStopped f e c h))

-- The shutdown of a controller that was not shutting down. Every session stays, with no pending command.
-- The accepting and the checks are cancelled, and each session with a connection sends its pending
-- commands in the order of their ids, and then ends once they are written. However the controller goes on
-- running, whatever had been accepted before or still comes in: it never asks for another connection or
-- another check, and a further shutdown does nothing.
pub shutdown_once :
    (f : FloatOps) (es : List ControllerEvent) (c : Controller)
    → c.is_shutting_down ≡ false
    → let (c', calls) = shutdown_controller c in
      let c'' = controller_run f es c' in
      ((i : ℕ) → find i c'.sessions ≡ Option.map idle (find i c.sessions))
      × (calls ≡ cancels_accept ∷ cancels_checks ∷ flat (farewell c.messages.heap) c.sessions)
      × All IsQuiet (run_calls f es c')
      × (shutdown_controller c'' ≡ (c'', []))
shutdown_once f es c h =
    let stopped : IsStopped (shutdown_controller c).0 = unfold shutdown_controller in rw h refl in
    let later = controller_run-IsStopped f es (shutdown_controller c).0 stopped in
    (
      unfold shutdown_controller in
          rw h λ i.
            find-flush_all i c.messages.heap c.sessions
            ∙ flushed?-idle c.messages.heap (find i c.sessions),
      unfold shutdown_controller in
          rw h (
            ap (λ calls. cancels_accept ∷ cancels_checks ∷ calls)
              (flush_all-calls c.messages.heap c.sessions)),
      run_calls-IsQuiet f es (shutdown_controller c).0 stopped,
      unfold shutdown_controller in rw later refl,
    )
