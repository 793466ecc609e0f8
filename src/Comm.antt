-- ===== src/Comm.antt =====
-- include/core/comm/TcpComm.hpp and src/core/comm/TcpComm.cpp. What a call asks of asio or of the
-- handlers is its list of effects; each completion handler and each posted task is a function of its
-- own, called by the event loop with what asio reports.
pub mod Reads
pub mod Writes
pub mod Flush
pub mod Stream
use stradvision.Bytes.{read_u32_be, ◌>>=◌}
use stradvision.Common.{
  Bool, List, Option, [], drop, false, if◌then◌else◌, length, ltb, not, replicate, some, take, true,
  ℕ, ◌&&◌, ◌++◌, ◌+◌, ◌-◌, ◌==◌, ◌∷◌,
}
use stradvision.Message.{Message}
use stradvision.Parser.{
  Outcome, crc_mismatch, deserialize, get_header_size, incomplete, parsed, serialize,
}

-- The reasons that the error handler is given: `invalid_argument`, or asio's error.
pub data ErrorCode : Type 0 where
  invalid_argument : ErrorCode
  asio_error : ℕ → ErrorCode

-- The closures that `send`, `disconnect` and `flushAndDisconnect` post.
pub data Task : Type 0 where
  send_task : List ℕ → Task
  disconnect_task : Task
  flush_task : Task

-- `async_read n` reads into the buffer from its start, `async_read_body t` from behind the header up to
-- `t`. `undefined` is `front()` of an empty queue.
pub data Effect : Type 0 where
  async_read : ℕ → Effect
  async_read_body : ℕ → Effect
  async_write : List ℕ → Effect
  post : Task → Effect
  deliver : Message → Effect
  report : ErrorCode → Effect
  shutdown_both : Effect
  close : Effect
  undefined : Effect

pub record TcpComm : Type 0 where
  pub is_open : Bool
  pub read_buffer : List ℕ
  pub write_queue : List (List ℕ)
  pub has_msg_handler : Bool
  pub has_err_handler : Bool
  pub is_shutting_down : Bool

-- The constructor, on a connected socket.
unfoldable pub create : TcpComm
create = record {
  is_open = true;
  read_buffer = replicate 8192 0;
  write_queue = [];
  has_msg_handler = false;
  has_err_handler = false;
  is_shutting_down = false;
}

unfoldable pub set_message_handler : TcpComm → TcpComm
set_message_handler c = record c { has_msg_handler = true }

unfoldable pub set_error_handler : TcpComm → TcpComm
set_error_handler c = record c { has_err_handler = true }

unfoldable pub is_connected : TcpComm → Bool
is_connected c = c.is_open

-- `if (err_handler_) err_handler_(self, ec);`
abbrev pub report_to : TcpComm → ErrorCode → List Effect
report_to c e = if c.has_err_handler then report e ∷ [] else []

unfoldable pub read_header : TcpComm → List Effect
read_header c = async_read get_header_size ∷ []

unfoldable pub start : TcpComm → List Effect
unfolding read_header
start c = read_header c

-- `buffer.resize(n)` of a longer buffer
abbrev pub grow : List ℕ → ℕ → List ℕ
grow buf n = buf ++ replicate (n - length buf) 0

unfoldable pub read_body : TcpComm → ℕ → List Effect
read_body c total_frame_size = async_read_body total_frame_size ∷ []

-- asio has put bytes into the buffer from place `k` on.
abbrev pub fill : ℕ → List ℕ → List ℕ → List ℕ
fill k bytes buf = take k buf ++ (bytes ++ drop (k + length bytes) buf)

-- The handler of `readHeader`: asio filled the header, or failed. `total_size` is a `size_t`.
unfoldable pub on_header : TcpComm → List ℕ → Option (TcpComm × List Effect)
on_header c bytes = do
  let buf = fill 0 bytes c.read_buffer
  payload_len ← read_u32_be buf
  let total_size = get_header_size + payload_len + 4
  let buf' = if ltb (length buf) total_size then grow buf total_size else buf
  let c' = record c { read_buffer = buf' }
  some (c', read_body c' total_size)

unfoldable pub on_header_error : TcpComm → ℕ → TcpComm × List Effect
on_header_error c e = (c, report_to c (asio_error e))

-- The `try` block of `readBody` and what follows it. `throws m` says whether the message handler leaves
-- by an exception on `m`.
unfoldable pub on_frame : TcpComm → ℕ → (Message → Bool) → Outcome → List Effect
on_frame c total_frame_size throws (parsed m consumed) =
    if (consumed == total_frame_size) && c.has_msg_handler
    then (if throws m then deliver m ∷ report_to c invalid_argument else deliver m ∷ read_header c)
    else read_header c
on_frame c total_frame_size throws incomplete = read_header c
on_frame c total_frame_size throws crc_mismatch = report_to c invalid_argument

-- The handler of `readBody`; `none` is a read behind the buffer in `deserialize`.
unfoldable pub on_body :
    ℕ → TcpComm → ℕ → (Message → Bool) → List ℕ → Option (TcpComm × List Effect)
on_body now c total_frame_size throws bytes = do
  let c' = record c { read_buffer = fill get_header_size bytes c.read_buffer }
  outcome ← deserialize now c'.read_buffer
  some (c', on_frame c' total_frame_size throws outcome)

unfoldable pub on_body_error : TcpComm → ℕ → TcpComm × List Effect
on_body_error c e = (c, report_to c (asio_error e))

unfoldable pub send : Message → Option (List Effect)
send msg = do encoded ← serialize msg; some (post (send_task encoded) ∷ [])

unfoldable pub disconnect : List Effect
disconnect = post disconnect_task ∷ []

unfoldable pub flush_and_disconnect : List Effect
flush_and_disconnect = post flush_task ∷ []

unfoldable pub write_pump : List (List ℕ) → List Effect
write_pump [] = undefined ∷ []
write_pump (front ∷ queue) = async_write front ∷ []

abbrev pub is_empty {ℓ} : {A : Type ℓ} → List A → Bool
is_empty [] = true
is_empty (_ ∷ _) = false

abbrev pub erase_front {ℓ} : {A : Type ℓ} → List A → List A
erase_front [] = []
erase_front (_ ∷ xs) = xs

-- A posted task when its turn comes.
unfoldable pub run_task : TcpComm → Task → TcpComm × List Effect
unfolding write_pump
run_task c (send_task buf) =
    let idle = is_empty c.write_queue in
    let c' = record c { write_queue = c.write_queue ++ (buf ∷ []) } in
    (c', if idle then write_pump c'.write_queue else [])
run_task c disconnect_task =
    if c.is_open then (record c { is_open = false }, close ∷ []) else (c, [])
run_task c flush_task =
    let c' = record c { is_shutting_down = true } in
    if is_empty c.write_queue && c.is_open
    then (record c' { is_open = false }, shutdown_both ∷ close ∷ [])
    else (c', [])

-- The handler of `async_write`.
unfoldable pub on_written : TcpComm → TcpComm × List Effect
unfolding write_pump
on_written c =
    let c' = record c { write_queue = erase_front c.write_queue } in
    if not (is_empty c'.write_queue)
    then (c', write_pump c'.write_queue)
    else (if c'.is_shutting_down && c'.is_open
        then (record c' { is_open = false }, shutdown_both ∷ close ∷ [])
        else (c', []))

unfoldable pub on_write_error : TcpComm → ℕ → TcpComm × List Effect
on_write_error c e = (c, report_to c (asio_error e))
