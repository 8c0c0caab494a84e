-- ===== src/WebServer/Tests.antt =====
-- A request to a server without a callback of its own.
use network_library.Prelude.{ℕ, ◌+◌, ◌≡◌, refl, true, List, [], ◌∷◌, ◌++◌, some, arith, length}
use network_library.Buffer
use network_library.Buffer.{Buffer, WriteResult, initial_size}
use network_library.Buffer.Valid.{IsValid, new-IsValid}
use network_library.Buffer.Contents.{contents}
use network_library.Http.Text.{bytes_of}
use network_library.Http.Request.{Entries}
use network_library.Http.Response.{Response}
use network_library.Http.Printing.{response_text}
use network_library.Http.RoundTrip.{request_text}
use network_library.TcpConnection.{Connection, State, connected, disconnecting}
use network_library.TcpConnection
use network_library.TcpConnection.Stream.{stream}
use network_library.WebServer.{default_http_callback, on_message}
use network_library.WebServer.Answers.{on_message-response_text}

abbrev host : Entries
host = (bytes_of "Host", bytes_of "a") ∷ []

abbrev text : List ℕ
text = request_text (bytes_of "/x") host

abbrev not_found : Response
not_found = record {
  code = 404;
  status_message = bytes_of "Not Found";
  is_keep_alive = true;
  header = [];
  body = [];
}

abbrev asking : Connection
asking = record (TcpConnection.new 5) {
  state = connected;
  input = record {
    buffer = (0 ∷ 0 ∷ 0 ∷ 0 ∷ 0 ∷ 0 ∷ 0 ∷ 0 ∷ []) ++ text;
    reader_index = 8;
    writer_index = 8 + length text;
  };
}

asking-IsValid : IsValid asking.output
unfolding TcpConnection.new
asking-IsValid = new-IsValid initial_size (omega arith)

asking_start : asking.output.writer_index ≡ 8
unfolding TcpConnection.new Buffer.new
asking_start = refl

on_message-response_text_example :
    (after : Connection) × (on_message default_http_callback true
        (WriteResult.failed 11)
        (WriteResult.wrote 20)
        asking
      ≡ some after)
    × (stream after ≡ stream asking ++ response_text not_found)
    × (after.state ≡ disconnecting)
    × (contents after.input ≡ [])
on_message-response_text_example =
    on_message-response_text default_http_callback (WriteResult.failed 11) (WriteResult.wrote 20)
      (bytes_of "/x") host not_found asking (omega arith) refl refl refl refl refl asking-IsValid
      (omega arith) (λ fatal. fatal) (omega (arith, asking_start))
