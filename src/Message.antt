-- ===== src/Message.antt =====
-- include/core/message/MessageType.hpp, Header.hpp, Message.hpp and src/core/message/Message.cpp.
use stradvision.Common.{ℕ, List, if◌then◌else◌, length, u32, ◌+◌, ◌==◌}

-- `enum class MessageType : uint16_t`: any 16-bit value can be cast to it, so it is a number, and the
-- enumerators are constants.
abbrev pub MessageType : Type 0
MessageType = ℕ

abbrev pub hello : MessageType
hello = 0x0001

abbrev pub heartbeat : MessageType
heartbeat = 0x0002

abbrev pub state : MessageType
state = 0x0003

abbrev pub cmd_start : MessageType
cmd_start = 0x1001

abbrev pub cmd_stop : MessageType
cmd_stop = 0x1002

abbrev pub cmd_set_mode : MessageType
cmd_set_mode = 0x1003

abbrev pub ack : MessageType
ack = 0x2001

abbrev pub nack : MessageType
nack = 0x2002

pub record Header : Type 0 where
  pub type : MessageType
  pub agent_id : ℕ
  pub header_id : ℕ
  pub timestamp : ℕ
  pub payload_len : ℕ
  pub flags : ℕ

-- `Header::size()`: payload_len, type, flags, agent_id, header_id, timestamp.
abbrev pub header_size : ℕ
header_size = 4 + 2 + 1 + 4 + 4 + 8

pub record Message : Type 0 where
  pub header : Header
  pub payload : List ℕ
  pub crc32 : ℕ

-- The constructor; `now` is the system clock in milliseconds.
unfoldable pub message : ℕ → MessageType → List ℕ → ℕ → ℕ → ℕ → Message
message now type payload agent_id header_id flags = record {
  header = record {
    type = type;
    agent_id = agent_id;
    header_id = header_id;
    timestamp = now;
    payload_len = u32 (length payload);
    flags = flags;
  };
  payload = payload;
  crc32 = 0;
}

-- Message objects by their addresses.
abbrev pub Heap : Type 0
Heap = ℕ → Message

abbrev pub store : Heap → ℕ → Message → Heap
store heap p m q = if p == q then m else heap q
