-- ===== src/TcpConnection/Events.antt =====
-- A connection's life as a sequence of events, each a call of a function of src/net/TcpConnection.cc.
use network_library.Prelude.{ℕ, ◌+◌, Bool, List, [], ◌∷◌, Option, some, length}
use network_library.Prelude.Options.{◌>>=◌}
use network_library.Buffer.{WriteResult, ReadResult}
use network_library.TcpConnection.{
  Connection, send, send_in_loop, shutdown, shutdown_in_loop, connect_established,
  connect_destroyed, handle_read, handle_write, handle_close,
}

-- What can happen to a connection.
pub data Event : Type 0 where
  sends : Bool → WriteResult → List ℕ → Event
  sends_in_loop : WriteResult → List ℕ → Event
  reads : ℕ → (ℕ → ReadResult) → Event
  writes : (List ℕ → WriteResult) → Event
  shuts shuts_in_loop closes establishes destroys : Event

unfoldable pub step : Event → Connection → Option Connection
step (sends in_loop answer bytes) c = send in_loop answer bytes c
step (sends_in_loop answer bytes) c = send_in_loop answer bytes c
step (reads time readv) c = handle_read time readv c
step (writes write) c = some (handle_write write c)
step shuts c = some (shutdown c)
step shuts_in_loop c = some (shutdown_in_loop c)
step closes c = some (handle_close c)
step establishes c = some (connect_established c)
step destroys c = some (connect_destroyed c)

unfoldable pub run : List Event → Connection → Option Connection
run [] c = some c
run (e ∷ es) c = step e c >>= run es

-- How many bytes the events try to send.
abbrev pub bulk : Event → ℕ
bulk (sends in_loop answer bytes) = length bytes
bulk (sends_in_loop answer bytes) = length bytes
bulk _ = 0

abbrev pub bulk_of : List Event → ℕ
bulk_of [] = 0
bulk_of (e ∷ es) = bulk e + bulk_of es
