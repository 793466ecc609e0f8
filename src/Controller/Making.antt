-- ===== src/Controller/Making.antt =====
-- A mode command for one session, as one equation.
use stradvision.Session
use stradvision.Common.{ℕ, Bool, [], eq→==, length, refl, true, u32, ◌∷◌, ◌≡◌}
use stradvision.Controller.{Entry, healthy_entry, on_link}
use stradvision.Controller.Cycle.{pending_of}
use stradvision.Controller.Health.{command_entry}
use stradvision.Dict.{put}
use stradvision.Message.{Heap, Message, store}
use stradvision.Payload.{serialize_set_mode}
use stradvision.Session.{Session, get_set_mode_msg, sends, track_command}
use stradvision.Session.Ack.{is_healthy_iff}

-- The message object after a mode command.
abbrev pub made_message : ℕ → ℕ → Message → Message
made_message mode id old =
    let payload = serialize_set_mode (record { mode = mode }) in
    record old {
      header = record old.header { header_id = id; payload_len = u32 (length payload) };
      payload = payload;
    }

abbrev pub commanded_entry : ℕ → ℕ → ℕ → Entry → Entry
commanded_entry now mode id e = record e {
  session = record e.session {
    payload_set_mode = record { mode = mode };
    pending_cmds = put id (pending_of now e) e.session.pending_cmds;
  };
}

-- A mode command for a healthy session, as one equation.
pub command_entry_lem :
    (now mode id : ℕ) (is_open : ℕ → Bool) (e : Entry) (heap : Heap)
    → healthy_entry now is_open e ≡ true
    → let p = e.session.msg_set_mode in
      let m = made_message mode id (heap p) in
      command_entry now is_open mode id e heap
      ≡ (commanded_entry now mode id e, on_link e.conn (sends m) ∷ [], store heap p m)
unfolding command_entry get_set_mode_msg track_command Session.send
command_entry_lem now mode id is_open e heap h = rw (
  h,
  eq→== e.session.msg_set_mode e.session.msg_set_mode refl,
  ((is_healthy_iff now (is_open e.conn) e.session).0 h).0,
)
