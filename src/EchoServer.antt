-- ===== src/EchoServer.antt =====
-- src/example/testserver.cc: the server that hands what it receives to `send`.
--
-- `in_loop_thread` and the answers of `readv` and `write` are arguments, as in TcpConnection.
pub mod Echo
mod Tests
use network_library.Prelude.{ℕ, Bool, true, false, List, Option, some}
use network_library.Prelude.Options.{◌>>=◌}
use network_library.Buffer.{Buffer, ReadResult, WriteResult, retrieve_all_as_string}
use network_library.TcpConnection.{Connection, send, shutdown, handle_read}

-- `onMessage`, whose buffer is the input buffer of the connection.
unfoldable pub on_message : Bool → WriteResult → Connection → Option Connection
on_message in_loop_thread answer c =
    let (msg, input) = retrieve_all_as_string c.input in
    send in_loop_thread answer msg (record c { input = input }) >>= λ c1. some (shutdown c1)

-- A read event of the connection in the thread of its loop, with the message callback that it leads to.
unfoldable pub serve : ℕ → (ℕ → ReadResult) → WriteResult → Connection → Option Connection
serve time readv answer c = handle_read time readv c >>= on_message true answer
