-- ===== src/Lib.antt =====
-- A verification library for the controller and agents of stradvision: the wire format, the TCP
-- connection, the controller with its sessions, its policies and its metrics page, and the agent.
--
-- The program's parts. A controller accepts TCP connections of agents (src/controller/, src/agent/).
-- Both ends speak frames of a 23-byte header, a payload and a CRC-32 (src/core/message/), over a
-- connection of asio (src/core/comm/TcpComm.cpp). An agent says HELLO, and the controller keeps a
-- session for it (src/controller/AgentTcpSession.cpp) that resends a command until it is acknowledged.
-- Agents report their load, which the state store keeps. Every two seconds the controller drops the
-- sessions that are silent, and its policies (configs/policy.json) turn the average load into a mode
-- command for all agents. A page shows the metrics to a scraper.
--
-- Which file models which part:
--   Common      shared names, Boolean tests on numbers, list functions, words, results with errors
--   Bytes       include/core/utils/ByteSerializer.hpp, all functions: `write_u32_be`, `read_u32_be`, ...
--   Crc         `compute_crc32` of src/core/message/BinaryMessageParser.cpp
--   Message     include/core/message/MessageType.hpp, Header.hpp, Message.hpp, src/core/message/Message.cpp
--   Parser      `serialize`, `deserialize`, `getHeaderSize` of src/core/message/BinaryMessageParser.cpp
--   Payload     src/core/message/payload/: `serialize_hello` is `HelloPayload::serialize`, and so on
--   Comm        src/core/comm/TcpComm.cpp: `on_header`, `on_body` and `on_written` are the completion
--               handlers of `readHeader`, `readBody` and `writePump`; `run_task` is a posted closure
--   Dict        the maps by numbers, in the order of the keys: pending commands, sessions, states, counters
--   Metrics     include/controller/MetricsTracker.hpp
--   Session     src/controller/AgentTcpSession.cpp, one function for each member function
--   Pool        include/core/pool/MessagePool.hpp, all functions
--   Store       src/controller/StateStore.cpp, one function for each member function
--   Controller  src/controller/Controller.cpp. `on_accept` is the handler of `doAccept`, `on_error` the
--               error handler that it gives a connection, `on_message` is `onMessage`.
--               Controller/Commands: `broadcastCommand`, `sendCommandTo`, `getNextId`, `shutdownController`;
--               Controller/Config: `loadPolicies`, `checkPolicyUpdate`, the constructor;
--               Controller/Health: the timer's handler of `startHealthCheck`, loop by loop;
--               Controller/Steps: the controller as a state machine, with all of its events
--   Page        src/controller/MetricsServer.cpp: the page and its response
--   Agent       src/agent/Agent.cpp, one function for each member function and completion handler;
--               Agent/Runs: the agent as a state machine, with all of its events
--   Link        one session of the controller, its agent and the messages on the way between them, as a
--               step relation: commands, checks of the timeouts, handled messages, reports, losses
--   Programs    src/agent/main.cpp and src/controller/main.cpp
--
-- State and effects. A member function takes the object's record and returns the new one. A byte is a
-- number below 256, an integer of w bits a number below 2 ^ w, and every operation that can wrap is
-- written with its wrap-around. A pointer into a buffer is the list from there on; a read behind the
-- end is `none`, or `fault` where an exception is possible as well. What the code asks of asio is a
-- list of effects, and a completion handler is a function that is given what asio reports. A run of
-- the event loop is a list of events, in any order that asio allows: a finished or failed write is
-- reported only while one is in flight. Times are arguments: milliseconds of the system clock for a
-- message, nanoseconds of the steady clock for a session. During one handler a clock stands still. A
-- `weak_ptr` to a session is the session object's number, and locks while a session with it is in the map.
--
-- Recursion is structural everywhere. The loops of `compute_crc32` and `assign` count down, and the loops
-- over the maps go along them. The printing of a number has fuel: 20 digits, which every 64-bit number
-- fits. `run_reads` of Comm/Reads finishes at most k reads; two for each message are enough.
--
-- Not modelled: asio's sockets and the order in which its threads run posted closures beyond the
-- sequence of events, the mutexes (each locked member function is one step), logging, name resolution
-- and the registration of the signal handlers. An unordered map is taken in the order of its keys;
-- Controller/Order takes the sessions in any order. In Link the connection stays as it is. The message
-- object that the parser takes from the pool for a received frame is a value here and takes no slot of
-- the pool, so the pool from which a HELLO gets its session's message does not see it. The
-- arithmetic, comparison and printing of floating-point numbers, the file system, the JSON parser, and in
-- the programs the reading of numbers, the binding of ports and the run of the handlers are parameters; a
-- float is its bit pattern.
pub mod Common
pub mod Bytes
pub mod Crc
pub mod Message
pub mod Parser
pub mod Payload
pub mod Comm
pub mod Dict
pub mod Metrics
pub mod Session
pub mod Pool
pub mod Agent
pub mod Store
pub mod Controller
pub mod Page
pub mod Link
pub mod Programs
mod Tests
