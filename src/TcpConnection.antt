-- ===== src/TcpConnection.antt =====
-- src/net/TcpConnection.h and src/net/TcpConnection.cc: one connection, its state, its channel and
-- its two buffers.
--
-- What the connection does to the outside is a log, newest first: the bytes that `write` accepted,
-- the callbacks, the tasks handed to the loop, and the calls to the poller. What `readv` and `write`
-- answer, and whether the caller is the loop's thread, are arguments. `none` is the
-- `std::length_error` of a buffer.
pub mod Stream
pub mod Events
pub mod Quiet
pub mod Stall
pub mod Partial
pub mod Lifecycle
pub mod Answer
pub mod Direct
mod Tests
use network_library.Prelude.{
  ℕ, ◌+◌, ◌-◌, ◌*◌, Bool, true, false, not, ◌&&◌, ◌||◌, List, [], ◌∷◌, Option, none, some, length,
  take, drop, ltb, leb, ◌==◌, if◌then◌else◌,
}
use network_library.Prelude.Words.{sub_size, add_size}
use network_library.Prelude.Options.{◌>>=◌}
use network_library.Buffer.{Buffer, ReadResult, WriteResult, readable_bytes, peek}
use network_library.Buffer
use network_library.Channel.{
  Channel, Mask, is_writing, enable_reading, enable_writing, disable_writing, disable_all, tie,
}
use network_library.Channel

-- `StateE`
pub data State : Type 0 where
  disconnected connecting connected disconnecting : State

-- What is handed to `queueInLoop`, or to `runInLoop` from another thread.
pub data Task : Type 0 where
  write_complete shutdown_task : Task
  high_water : ℕ → Task
  send_task : List ℕ → Task

pub data Effect : Type 0 where
  to_kernel : List ℕ → Effect
  shuts_write : Effect
  queues : Task → Effect
  connection_callback : Bool → Effect
  message_callback : ℕ → Effect
  close_callback : Effect
  updates : Mask → Effect
  removes : Effect

pub record Connection : Type 0 where
  pub state : State
  pub channel : Channel
  pub input : Buffer
  pub output : Buffer
  pub high_water_mark : ℕ
  pub has_write_complete : Bool
  pub has_high_water : Bool
  pub log : List Effect

-- `errno` values of Linux
abbrev pub epipe : ℕ
epipe = 32

abbrev pub ewouldblock : ℕ
ewouldblock = 11

abbrev pub econnreset : ℕ
econnreset = 104

-- The constructor: the channel with its four callbacks, two buffers of the initial size, 64 MiB.
unfoldable pub new : ℕ → Connection
new sockfd = record {
  state = connecting;
  channel = record (Channel.new sockfd) {
    has_read = true;
    has_write = true;
    has_close = true;
    has_error = true;
  };
  input = Buffer.new Buffer.initial_size;
  output = Buffer.new Buffer.initial_size;
  high_water_mark = 64 * 1024 * 1024;
  has_write_complete = false;
  has_high_water = false;
  log = [];
}

abbrev pub emit : Effect → Connection → Connection
emit e c = record c { log = e ∷ c.log }

-- A change of `events_`, and `Channel::update`.
abbrev pub change_channel : (Channel → Channel) → Connection → Connection
change_channel f c = record c { channel = f c.channel; log = updates (f c.channel).events ∷ c.log }

-- `connected()`
abbrev pub is_connected : State → Bool
is_connected connected = true
is_connected _ = false

abbrev pub is_disconnected : State → Bool
is_disconnected disconnected = true
is_disconnected _ = false

abbrev pub is_disconnecting : State → Bool
is_disconnecting disconnecting = true
is_disconnecting _ = false

-- The state of `sendInLoop` after its attempt to write: `nwrote`, `remaining`, `faultError`.
pub record Attempt : Type 0 where
  pub nwrote : ℕ
  pub remaining : ℕ
  pub fault_error : Bool
  pub conn : Connection

-- `::write` at once, if nothing waits to be written.
pub attempt_write : WriteResult → List ℕ → Connection → Attempt
attempt_write (WriteResult.wrote n) bytes c =
    let remaining = sub_size (length bytes) n in
    let told = emit (to_kernel (take n bytes)) c in
    record {
      nwrote = n;
      remaining = remaining;
      fault_error = false;
      conn =
          if remaining == 0 && c.has_write_complete
          then emit (queues write_complete) told
          else told;
    }
attempt_write (WriteResult.failed errno) bytes c = record {
  nwrote = 0;
  remaining = length bytes;
  fault_error = not (errno == ewouldblock) && (errno == epipe || errno == econnreset);
  conn = c;
}

pub no_attempt : List ℕ → Connection → Attempt
no_attempt bytes c = record { nwrote = 0; remaining = length bytes; fault_error = false; conn = c }

-- The high-water callback, when the output buffer passes the mark.
pub warn_high_water : ℕ → Connection → Connection
warn_high_water remaining c =
    if leb c.high_water_mark (add_size old remaining)
      && ltb old c.high_water_mark
      && c.has_high_water
    then emit (queues (high_water (add_size old remaining))) c
    else c
  where
    old : ℕ
    old = readable_bytes c.output

-- `if (channel_->isWriting()) channel_->enableWriting();`
pub keep_writing : Connection → Connection
keep_writing c = if is_writing c.channel then change_channel enable_writing c else c

-- The second half of `sendInLoop`: what was not written goes to the output buffer.
pub save_rest : List ℕ → Attempt → Option Connection
unfolding warn_high_water keep_writing
save_rest bytes a =
    if not a.fault_error && ltb 0 a.remaining
    then (Buffer.append (drop a.nwrote bytes) a.conn.output >>= λ out.
        some (keep_writing (record (warn_high_water a.remaining a.conn) { output = out })))
    else some a.conn

pub send_in_loop : WriteResult → List ℕ → Connection → Option Connection
send_in_loop answer bytes c =
    if is_disconnected c.state
    then some c
    else if not (is_writing c.channel) && readable_bytes c.output == 0
    then save_rest bytes (attempt_write answer bytes c)
    else save_rest bytes (no_attempt bytes c)

-- `send(const std::string&)`
pub send : Bool → WriteResult → List ℕ → Connection → Option Connection
send in_loop_thread answer bytes c =
    if is_connected c.state
    then (if in_loop_thread
        then send_in_loop answer bytes c
        else some (emit (queues (send_task bytes)) c))
    else some c

-- `send(Buffer*)`, with what it leaves in the buffer.
pub send_buffer : Bool → WriteResult → Buffer → Connection → Option (Buffer × Connection)
send_buffer in_loop_thread answer buf c =
    if is_connected c.state
    then (if in_loop_thread
        then (send_in_loop answer (take (readable_bytes buf) (drop (peek buf) buf.buffer)) c
            >>= λ c'. some (Buffer.retrieve_all buf, c'))
        else (let (bytes, buf') = Buffer.retrieve_all_as_string buf in
            some (buf', emit (queues (send_task bytes)) c)))
    else some (buf, c)

pub shutdown_in_loop : Connection → Connection
shutdown_in_loop c = if not (is_writing c.channel) then emit shuts_write c else c

unfoldable pub shutdown : Connection → Connection
shutdown c =
    if is_connected c.state
    then emit (queues shutdown_task) (record c { state = disconnecting })
    else c

pub connect_established : Connection → Connection
connect_established c =
    emit (connection_callback true)
      (change_channel (λ ch. enable_reading (tie ch)) (record c { state = connected }))

-- `disableAll`, and the connection callback, of a connection that is no longer connected.
abbrev pub take_down : Connection → Connection
take_down c =
    emit (connection_callback false)
      (change_channel disable_all (record c { state = disconnected }))

pub connect_destroyed : Connection → Connection
connect_destroyed c = emit removes (if is_connected c.state then take_down c else c)

pub handle_close : Connection → Connection
handle_close c = emit close_callback (take_down c)

-- `handleError` only logs.
pub handle_error : Connection → Connection
handle_error c = c

-- What `handleRead` makes of the answer of `readFd`: the message callback runs on the connection as
-- `readFd` left it.
pub after_read : ℕ → ReadResult → Connection → Connection
unfolding handle_close handle_error
after_read time (ReadResult.failed errno) c = handle_error c
after_read time (ReadResult.received []) c = handle_close c
after_read time (ReadResult.received (x ∷ xs)) c = emit (message_callback time) c

pub handle_read : ℕ → (ℕ → ReadResult) → Connection → Option Connection
unfolding after_read
handle_read time readv c =
    Buffer.read_fd readv c.input >>= λ r. some (after_read time r.0 (record c { input = r.1 }))

-- The output buffer has been written out.
pub finish_write : Connection → Connection
unfolding shutdown_in_loop
finish_write c =
    let quiet = change_channel disable_writing c in
    let told = if c.has_write_complete then emit (queues write_complete) quiet else quiet in
    if is_disconnecting c.state then shutdown_in_loop told else told

-- `write` has taken the first `n` bytes of the output buffer.
pub consume_output : ℕ → Connection → Connection
consume_output n c = record c {
  output = Buffer.retrieve n c.output;
  log = to_kernel (take n (drop (peek c.output) c.output.buffer)) ∷ c.log;
}

pub advance_output : ℕ → Connection → Connection
unfolding consume_output
advance_output n c =
    let rest = consume_output n c in
    if readable_bytes rest.output == 0 then finish_write rest else rest

-- What `handleWrite` makes of the answer of `write`.
pub written : WriteResult → Connection → Connection
unfolding advance_output
written (WriteResult.wrote n) c = if ltb 0 n then advance_output n c else c
written (WriteResult.failed errno) c = c

pub handle_write : (List ℕ → WriteResult) → Connection → Connection
unfolding written
handle_write write c = if is_writing c.channel then written (Buffer.writ_fd write c.output) c else c
