-- ===== src/TcpConnection/Quiet.antt =====
-- `sendInLoop` asks for write events only of a channel that has them already
-- (`if (channel_->isWriting())`), so a channel never waits to write.
use network_library.Prelude.{ℕ, ◌≡◌, refl, false, List, [], ◌∷◌, some, arith, subst}
use network_library.Prelude.Options.{>>=-eq-some, some_inj}
use network_library.Buffer.{Buffer, readable_bytes, WriteResult, ReadResult}
use network_library.Buffer.{max_size}
use network_library.Buffer
use network_library.Channel.{is_writing}
use network_library.TcpConnection.{
  Connection, new, send, send_in_loop, save_rest, keep_writing, warn_high_water, attempt_write,
  no_attempt, shutdown, shutdown_in_loop, connect_established, connect_destroyed, handle_read,
  handle_write, handle_close, handle_error, after_read, Attempt,
}
use network_library.TcpConnection.Events.{
  Event, sends, sends_in_loop, reads, writes, shuts, shuts_in_loop, closes, establishes, destroys,
  step, run,
}

abbrev pub IsQuiet : Connection → Type 0
IsQuiet c = is_writing c.channel ≡ false

warn-channel : (n : ℕ) (c : Connection) → (warn_high_water n c).channel ≡ c.channel
unfolding warn_high_water
warn-channel n c = ground arith

pub attempt-channel :
    (answer : WriteResult) (bytes : List ℕ) (c : Connection)
    → (attempt_write answer bytes c).conn.channel ≡ c.channel
unfolding attempt_write
attempt-channel (WriteResult.wrote n) bytes c = ground arith
attempt-channel (WriteResult.failed errno) bytes c = refl

pub save_rest-IsQuiet :
    (bytes : List ℕ) (a : Attempt) (c' : Connection)
    → IsQuiet a.conn
    → save_rest bytes a ≡ some c'
    → IsQuiet c'
unfolding save_rest keep_writing
save_rest-IsQuiet bytes a c' q e = ground (arith, warn-channel a.remaining a.conn)

sends_in_loop-IsQuiet :
    (answer : WriteResult) (bytes : List ℕ) (c c' : Connection)
    → IsQuiet c
    → send_in_loop answer bytes c ≡ some c'
    → IsQuiet c'
unfolding send_in_loop no_attempt
sends_in_loop-IsQuiet answer bytes c c' q e = ground (
  arith,
  save_rest-IsQuiet bytes (attempt_write answer bytes c) c',
  save_rest-IsQuiet bytes (no_attempt bytes c) c',
  attempt-channel answer bytes c,
)

after_read-IsQuiet :
    (time : ℕ) (r : ReadResult) (c : Connection) → IsQuiet c → IsQuiet (after_read time r c)
unfolding after_read handle_close handle_error
after_read-IsQuiet time (ReadResult.failed errno) c q = q
after_read-IsQuiet time (ReadResult.received []) c q = refl
after_read-IsQuiet time (ReadResult.received (x ∷ xs)) c q = q

step-IsQuiet : (e : Event) (c c' : Connection) → IsQuiet c → step e c ≡ some c' → IsQuiet c'
unfolding step send shutdown shutdown_in_loop handle_close connect_established connect_destroyed
    handle_write handle_read
step-IsQuiet (sends in_loop answer bytes) c c' q e =
    ground (arith, sends_in_loop-IsQuiet answer bytes c c' q)
step-IsQuiet (sends_in_loop answer bytes) c c' q e = sends_in_loop-IsQuiet answer bytes c c' q e
step-IsQuiet (reads time readv) c c' q e =
    let (r, got, done) = >>=-eq-some (Buffer.read_fd readv c.input) _ e in
    subst IsQuiet (some_inj done) (after_read-IsQuiet time r.0 (record c { input = r.1 }) q)
step-IsQuiet (writes write) c c' q e = ground arith
step-IsQuiet shuts c c' q e = ground arith
step-IsQuiet shuts_in_loop c c' q e = ground arith
step-IsQuiet closes c c' q e = ground arith
step-IsQuiet establishes c c' q e = ground arith
step-IsQuiet destroys c c' q e = ground arith

pub run-IsQuiet :
    (es : List Event) (c c' : Connection) → IsQuiet c → run es c ≡ some c' → IsQuiet c'
unfolding run
run-IsQuiet [] c c' q e = subst IsQuiet (some_inj e) q
run-IsQuiet (e ∷ es) c c' q r =
    let (d, first, later) = >>=-eq-some (step e c) (run es) r in
    run-IsQuiet es d c' (step-IsQuiet e c d q first) later

-- In no history of a connection does its channel wait for write events, so `handleWrite` never
-- writes anything.
pub run-new-IsQuiet :
    (fd : ℕ) (es : List Event) (c : Connection)
    → run es (new fd) ≡ some c
    → is_writing c.channel ≡ false
unfolding new
run-new-IsQuiet fd es c e = run-IsQuiet es (new fd) c refl e
