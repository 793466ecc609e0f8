-- ===== src/Controller/Commands.antt =====
-- src/controller/Controller.cpp: `broadcastCommand`, `sendCommandTo`, the ids of commands (`getNextId`) and
-- `shutdownController`; and the list of policies of include/controller/Controller.hpp.
use stradvision.Session
use stradvision.Common.{
  ℕ, Bool, List, Option, [], false, if◌then◌else◌, none, some, true, u32, ◌++◌, ◌+◌, ◌∷◌,
}
use stradvision.Controller.{
  Controller, ControllerCall, Entry, Policy, Sessions, cancels_accept, cancels_checks,
  healthy_entry, on_links,
}
use stradvision.Dict.{find, or_zero, put}
use stradvision.Message.{Heap, MessageType}
use stradvision.Session.{Session, flush_pending_commands}

-- The loop of `broadcastCommand`. `is_open` says which connections are open.
unfoldable pub broadcast_command : ℕ → (ℕ → Bool) → Heap → ℕ → Sessions → List ControllerCall
broadcast_command now is_open heap msg [] = []
broadcast_command now is_open heap msg ((_, e) ∷ sessions) =
    (if healthy_entry now is_open e then on_links e.conn (Session.send e.session heap msg) else [])
    ++ broadcast_command now is_open heap msg sessions

abbrev pub send_if : ℕ → (ℕ → Bool) → Heap → ℕ → Option Entry → List ControllerCall
send_if now is_open heap msg none = []
send_if now is_open heap msg (some e) =
    if healthy_entry now is_open e then on_links e.conn (Session.send e.session heap msg) else []

unfoldable pub send_command_to : ℕ → (ℕ → Bool) → ℕ → ℕ → Controller → List ControllerCall
send_command_to now is_open agent_id msg c =
    send_if now is_open c.messages.heap msg (find agent_id c.sessions)

unfoldable pub clear_policies : Controller → Controller
clear_policies c = record c { policies = [] }

unfoldable pub add_policy : Policy → Controller → Controller
add_policy p c = record c { policies = c.policies ++ (p ∷ []) }

unfoldable pub get_next_id : MessageType → Controller → Controller × ℕ
get_next_id type c =
    let n = or_zero (find type c.message_counters) in
    (record c { message_counters = put type (u32 (n + 1)) c.message_counters }, n)

unfoldable pub flush_all : Heap → Sessions → Sessions × List ControllerCall
flush_all heap [] = ([], [])
flush_all heap ((k, e) ∷ sessions) =
    let (s, calls) = flush_pending_commands e.session heap in
    let (rest, more) = flush_all heap sessions in
    ((k, record e { session = s }) ∷ rest, on_links e.conn calls ++ more)

unfoldable pub shutdown_controller : Controller → Controller × List ControllerCall
shutdown_controller c =
    if c.is_shutting_down
    then (c, [])
    else (let (sessions, calls) = flush_all c.messages.heap c.sessions in
        (
          record c { is_shutting_down = true; has_metrics_server = false; sessions = sessions },
          cancels_accept ∷ cancels_checks ∷ calls,
        ))
