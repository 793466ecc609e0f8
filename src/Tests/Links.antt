-- ===== src/Tests/Links.antt =====
-- A session and its agent at concrete inputs.
use stradvision.Agent
use stradvision.Session
use stradvision.Agent.{Agent}
use stradvision.Comm.Stream.{sealed}
use stradvision.Common.{ℕ, Bool, List, [], ap, arith, inl, refl, some, true, ◌∷◌, ◌≡◌}
use stradvision.Controller.{ControllerCall, Entry, healthy_entry}
use stradvision.Controller.Health.{check_entry, command_entry}
use stradvision.Controller.Making.{command_entry_lem, made_message}
use stradvision.Dict.{put}
use stradvision.Link.{
  IsFresh, Link, Reach, checked_link, checks, commanded_link, commands, handled_link, handles,
  later, reported_link, reports, sent_down, start,
}
use stradvision.Link.Invariant.{Among, IsModeOf, IsTraced}
use stradvision.Link.Safety.{command-IsTraced, mode_was_commanded}
use stradvision.Message.{Heap, Message, message}
use stradvision.Session.{
  Session, check_all, check_command, check_command_timeouts, get_set_mode_msg, is_healthy,
  track_command,
}
use stradvision.Tests.Agents.{linked_agent}
use stradvision.Tests.Controllers.{agent_seven, joined, joined_ready}

abbrev fresh_link : Link
fresh_link = record {
  entry = agent_seven;
  messages = joined.messages;
  tracker = joined.tracker;
  agent = linked_agent;
  down = [];
  up = [];
  commanded = [];
  handled = [];
  given_up = [];
}

fresh_link-IsFresh : IsFresh fresh_link
unfolding Agent.create message
fresh_link-IsFresh = record {
  no_pending = refl;
  has_command = joined_ready.0;
  has_ack = refl;
  has_nack = refl;
  has_beat = refl;
  has_state = refl;
  no_down = refl;
  no_up = refl;
  no_commands = refl;
  none_handled = refl;
  none_given_up = refl;
}

abbrev always_open : ℕ → Bool
always_open conn = true

-- Mode 3 as command 12.
abbrev commanded : Link
commanded = commanded_link 2 always_open 3 12 fresh_link

abbrev sent_command : Message
sent_command = sealed (made_message 3 12 (joined.messages.heap 100))

healthy : healthy_entry 2 always_open agent_seven ≡ true
unfolding is_healthy
healthy = refl

sent_command-first : commanded.down ≡ sent_command ∷ []
unfolding commanded_link
sent_command-first =
    ap (λ (r : Entry × List ControllerCall × Heap). sent_down r.1)
      (command_entry_lem 2 3 12 always_open agent_seven joined.messages.heap healthy)

abbrev handled : Link
handled = handled_link 4 sent_command [] commanded

-- The agent reports, and the command is checked when it has not been acknowledged for two seconds.
abbrev reported : Link
reported = reported_link 5 6 7 handled

abbrev resent_entry : Entry
resent_entry = record agent_seven {
  session = record agent_seven.session {
    payload_set_mode = record { mode = 3 };
    pending_cmds = (12, record { msg = 100; last_send = 2000000002; retry_count = 1 }) ∷ [];
  };
}

still_here :
    (check_entry 2000000002 always_open reported.entry reported.tracker reported.messages).stays
    ≡ some resent_entry
unfolding check_entry reported_link handled_link commanded_link command_entry get_set_mode_msg
    track_command is_healthy check_command_timeouts check_all check_command put message Session.send
still_here = refl

run : Reach 7 fresh_link (checked_link 2000000002 always_open resent_entry reported)
run =
    later
      (later
        (later (later start (commands 2 3 12 always_open (omega arith) (omega arith) healthy))
          (handles 4 sent_command [] sent_command-first))
        (reports 5 6 7))
      (checks 2000000002 always_open resent_entry still_here)

abbrev last_link : Link
last_link = checked_link 2000000002 always_open resent_entry reported

mode_was_commanded_example :
    IsModeOf linked_agent.current_mode last_link.commanded last_link.agent.current_mode
    × ((id : ℕ) → Among id last_link.handled → (mode : ℕ) × Among (id, mode) last_link.commanded)
mode_was_commanded_example = mode_was_commanded 7 fresh_link last_link fresh_link-IsFresh run

made : Among (12, 3) last_link.commanded
unfolding checked_link reported_link handled_link commanded_link
made = inl refl

command-IsTraced_example :
    IsTraced 12 last_link.entry.session.pending_cmds last_link.handled last_link.given_up
command-IsTraced_example = command-IsTraced 7 12 3 fresh_link last_link fresh_link-IsFresh run made
