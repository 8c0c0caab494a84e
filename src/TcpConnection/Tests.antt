-- ===== src/TcpConnection/Tests.antt =====
-- Runs of a connection, and its theorems at concrete ones.
use network_library.Prelude.{
  ℕ, ◌≤◌, ◌<◌, ◌≡◌, refl, true, false, List, [], ◌∷◌, ◌++◌, Option, none, some, arith, length,
}
use network_library.Buffer.{
  Buffer, WriteResult, ReadResult, max_size, append, put, ensure_writable_bytes, make_space,
  retrieve, writ_fd,
}
use network_library.Buffer
use network_library.Buffer.Valid.{IsValid, new-IsValid}
use network_library.Buffer.Contents.{contents}
use network_library.Channel.{Channel, enable_reading, enable_writing, is_writing}
use network_library.Channel
use network_library.TcpConnection.{
  Connection, connecting, connected, to_kernel, new, send, send_in_loop, attempt_write, save_rest,
  keep_writing, warn_high_water, handle_write, connect_established, shutdown,
}
use network_library.TcpConnection.Stream.{
  sent, Streams, send_in_loop-Streams, Keeps, handle_write-stream, HonoursCount,
}
use network_library.TcpConnection.Events.{writes, shuts, establishes, step, run}
use network_library.TcpConnection.Quiet.{run-new-IsQuiet}
use network_library.TcpConnection.Stall.{IsStalled, run-stalled}
use network_library.TcpConnection.Partial.{partial_send_stalls}
use network_library.TcpConnection.Lifecycle.{
  has_shut, has_asked, IsOrderly, here, next, rank, Reach-IsOrderly,
}

abbrev byte_space : Buffer
byte_space = record {
  buffer = 0 ∷ 0 ∷ 0 ∷ 0 ∷ 0 ∷ 0 ∷ 0 ∷ 0 ∷ 0 ∷ 0 ∷ 0 ∷ 0 ∷ [];
  reader_index = 8;
  writer_index = 8;
}

abbrev fresh : Connection
fresh = record {
  state = connecting;
  channel = Channel.new 5;
  input = byte_space;
  output = byte_space;
  high_water_mark = 3;
  has_write_complete = true;
  has_high_water = true;
  log = [];
}

-- Connected, with nothing to write.
abbrev up : Connection
up = record fresh { state = connected }

-- `4 ∷ 5` waits, and the channel does not wait to write.
abbrev stalled : Connection
stalled = record up {
  output = record byte_space {
    buffer = 0 ∷ 0 ∷ 0 ∷ 0 ∷ 0 ∷ 0 ∷ 0 ∷ 0 ∷ 4 ∷ 5 ∷ 0 ∷ 0 ∷ [];
    writer_index = 10;
  };
}

-- The same, waiting to write.
abbrev writing : Connection
writing = record stalled { channel = enable_writing (Channel.new 5) }

byte_space-IsValid : IsValid byte_space
byte_space-IsValid = omega arith

-- The kernel takes three bytes of five.
partial :
    send true (WriteResult.wrote 3) (1 ∷ 2 ∷ 3 ∷ 4 ∷ 5 ∷ []) up
    ≡ some (record stalled { log = to_kernel (1 ∷ 2 ∷ 3 ∷ []) ∷ [] })
unfolding send send_in_loop attempt_write save_rest append ensure_writable_bytes put keep_writing
    warn_high_water
partial = refl

send_in_loop-Streams_example :
    Streams (1 ∷ 2 ∷ []) up (send_in_loop (WriteResult.wrote 1) (1 ∷ 2 ∷ []) up)
send_in_loop-Streams_example =
    send_in_loop-Streams (WriteResult.wrote 1) (1 ∷ 2 ∷ []) up (λ e. cc) (omega arith) (λ h. h)
      byte_space-IsValid (omega arith)

abbrev one_byte : List ℕ → WriteResult
one_byte [] = WriteResult.wrote 0
one_byte (x ∷ xs) = WriteResult.wrote 1

one_byte-HonoursCount : (bytes : List ℕ) → HonoursCount (one_byte bytes) bytes
one_byte-HonoursCount [] = omega arith
one_byte-HonoursCount (x ∷ xs) = omega arith

handle_write-stream_example : Keeps writing (handle_write one_byte writing)
handle_write-stream_example =
    handle_write-stream one_byte writing one_byte-HonoursCount (omega arith)

stalled-IsStalled : IsStalled stalled
stalled-IsStalled = record { quiet = refl; valid = omega arith; waiting = omega arith }

run-stalled_example : IsStalled stalled × (sent stalled.log ≡ sent stalled.log)
unfolding run step handle_write
run-stalled_example =
    run-stalled (writes one_byte ∷ []) stalled stalled stalled-IsStalled (omega arith) refl

run-new-IsQuiet_example : is_writing (connect_established (new 5)).channel ≡ false
unfolding run step
run-new-IsQuiet_example = run-new-IsQuiet 5 (establishes ∷ []) (connect_established (new 5)) refl

abbrev established : Connection
established = connect_established (new 5)

-- `c'` of a call that returns one.
abbrev result_of : Option Connection → Connection → Connection
result_of none c = c
result_of (some d) c = d

abbrev after_partial : Connection
after_partial = result_of (send true (WriteResult.wrote 1) (1 ∷ 2 ∷ []) established) established

partial_send_stalls_example :
    (sent after_partial.log ≡ sent established.log ++ 1 ∷ [])
    × (0 < length (contents after_partial.output))
unfolding run step connect_established new Buffer.new send send_in_loop attempt_write save_rest
    append ensure_writable_bytes put keep_writing warn_high_water
partial_send_stalls_example =
    partial_send_stalls 5 1 (1 ∷ 2 ∷ []) (establishes ∷ []) [] established after_partial
      after_partial refl refl (new-IsValid 1024 (omega arith)) refl (omega arith) (omega arith) refl
      refl

fresh-IsOrderly : IsOrderly fresh
unfolding has_shut has_asked
fresh-IsOrderly = record { shut = λ h. cc; asked = λ h. cc }

Reach-IsOrderly_example :
    IsOrderly (shutdown (connect_established fresh))
    × (0 ≤ rank (shutdown (connect_established fresh)).state)
unfolding step connect_established
Reach-IsOrderly_example =
    Reach-IsOrderly fresh (shutdown (connect_established fresh)) fresh-IsOrderly
      (next shuts _ (next establishes (connect_established fresh) here refl refl) tt refl)
