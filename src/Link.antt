-- ===== src/Link.antt =====
-- One session of src/controller/Controller.cpp and its agent of src/agent/Agent.cpp, with what is on the
-- way between them. The controller's part is a round of each loop of the health check and the handling of
-- a message; the agent's is `onMessage` and the report. A message on the way is as its receiver will have it.
pub mod Invariant
pub mod Rounds
pub mod Replies
pub mod Kept
pub mod Checking
pub mod Handling
pub mod Answering
pub mod Safety
use stradvision.Agent
use stradvision.Agent.{Agent, AgentCall, on_report, replies}
use stradvision.Comm.Stream.{sealed}
use stradvision.Common.{ℕ, Bool, IsU32, List, [], ok, some, take, true, ◌++◌, ◌∷◌, ◌≡◌}
use stradvision.Controller.{
  Controller, ControllerCall, Entry, healthy_entry, on_link, on_registered,
}
use stradvision.Controller.Health.{check_entry, command_entry}
use stradvision.Dict.{find}
use stradvision.Message.{Message, ack, cmd_set_mode, heartbeat, nack, state}
use stradvision.Metrics.{MetricsTracker}
use stradvision.Pool.{MessagePool}
use stradvision.Session.{Fate, PendingCommand, check_command, dropped, resent, sends, waits}

-- The messages among the calls of a connection, and among the calls of an agent.
abbrev pub carried : ControllerCall → List Message
carried (on_link conn (sends m)) = sealed m ∷ []
carried _ = []

abbrev pub sent_down : List ControllerCall → List Message
sent_down [] = []
sent_down (call ∷ calls) = carried call ++ sent_down calls

abbrev pub replied : AgentCall → List Message
replied (replies m) = sealed m ∷ []
replied _ = []

abbrev pub sent_up : List AgentCall → List Message
sent_up [] = []
sent_up (call ∷ calls) = replied call ++ sent_up calls

-- The commands that a check of the timeouts drops.
abbrev pub gone_with : Fate → ℕ → List ℕ → List ℕ
gone_with waits k rest = rest
gone_with (resent pc) k rest = rest
gone_with dropped k rest = k ∷ rest

unfoldable pub gone : ℕ → List (ℕ × PendingCommand) → List ℕ
gone now [] = []
gone now ((k, pc) ∷ pending) = gone_with (check_command now pc) k (gone now pending)

-- The last three fields are history: the ids and modes of the commands that were made, the ids of the
-- messages that the agent handled, and of the commands that the session gave up.
pub record Link : Type 0 where
  pub entry : Entry
  pub messages : MessagePool
  pub tracker : MetricsTracker
  pub agent : Agent
  pub down : List Message
  pub up : List Message
  pub commanded : List (ℕ × ℕ)
  pub handled : List ℕ
  pub given_up : List ℕ

-- The innermost loop of the policies, for this session.
unfoldable pub commanded_link : ℕ → (ℕ → Bool) → ℕ → ℕ → Link → Link
commanded_link now is_open mode id l =
    let (e', calls, heap') = command_entry now is_open mode id l.entry l.messages.heap in
    record l {
      entry = e';
      messages = record l.messages { heap = heap' };
      down = l.down ++ sent_down calls;
      commanded = (id, mode) ∷ l.commanded;
    }

-- The session loop, for this session, when it leaves the entry `e`.
unfoldable pub checked_link : ℕ → (ℕ → Bool) → Entry → Link → Link
checked_link now is_open e l =
    let r = check_entry now is_open l.entry l.tracker l.messages in
    record l {
      entry = e;
      messages = r.messages;
      tracker = r.tracker;
      down = l.down ++ sent_down r.calls;
      given_up = gone now l.entry.session.pending_cmds ++ l.given_up;
    }

unfoldable pub handled_link : ℕ → Message → List Message → Link → Link
handled_link now m rest l =
    let (a', calls) = Agent.on_message now m l.agent in
    record l {
      agent = a';
      down = rest;
      up = l.up ++ sent_up calls;
      handled = m.header.header_id ∷ l.handled;
    }

unfoldable pub reported_link : ℕ → ℕ → ℕ → Link → Link
reported_link now now' load l =
    let (a', calls) = on_report now now' load l.agent in
    record l { agent = a'; up = l.up ++ sent_up calls }

-- What may happen next. A command is made while the session is healthy, and the other steps of the
-- controller keep the session. An answer is handled by a controller that has the session, whatever else it
-- has. Messages are handled in the order in which they were sent, and the last ones may be lost.
pub data Step (k : ℕ) (l : Link) : Link → Type 0 where
  commands :
      (now mode id : ℕ) (is_open : ℕ → Bool)
      → IsU32 mode
      → IsU32 id
      → healthy_entry now is_open l.entry ≡ true
      → Step k l (commanded_link now is_open mode id l)
  checks :
      (now : ℕ) (is_open : ℕ → Bool) (e : Entry)
      → (check_entry now is_open l.entry l.tracker l.messages).stays ≡ some e
      → Step k l (checked_link now is_open e l)
  handles :
      (now : ℕ) (m : Message) (rest : List Message)
      → l.down ≡ m ∷ rest
      → Step k l (handled_link now m rest l)
  reports : (now now' load : ℕ) → Step k l (reported_link now now' load l)
  answers :
      (now : ℕ) (r : Message) (rest : List Message) (e : Entry) (c c' : Controller)
      (calls : List ControllerCall)
      → l.up ≡ r ∷ rest
      → find k c.sessions ≡ some l.entry
      → on_registered now r k l.entry c ≡ ok (c', calls)
      → find k c'.sessions ≡ some e
      → Step k l (record l { entry = e; tracker = c'.tracker; up = rest })
  loses_down : (n : ℕ) → Step k l (record l { down = take n l.down })
  loses_up : (n : ℕ) → Step k l (record l { up = take n l.up })

-- A session as it is registered, and an agent as it connects; nothing is on the way.
pub record IsFresh (l : Link) : Type 0 where
  pub no_pending : l.entry.session.pending_cmds ≡ []
  pub has_command : (l.messages.heap l.entry.session.msg_set_mode).header.type ≡ cmd_set_mode
  pub has_ack : l.agent.msg_ack.header.type ≡ ack
  pub has_nack : l.agent.msg_nack.header.type ≡ nack
  pub has_beat : l.agent.msg_hb.header.type ≡ heartbeat
  pub has_state : l.agent.msg_state.header.type ≡ state
  pub no_down : l.down ≡ []
  pub no_up : l.up ≡ []
  pub no_commands : l.commanded ≡ []
  pub none_handled : l.handled ≡ []
  pub none_given_up : l.given_up ≡ []

pub data Reach (k : ℕ) (first : Link) : Link → Type 0 where
  start : Reach k first first
  later : {l l' : Link} → Reach k first l → Step k l l' → Reach k first l'
