-- ===== src/WebServer.antt =====
-- src/http/WebServer.h and src/http/WebServer.cc: the callbacks of the HTTP server on a connection.
--
-- The callback that the user sets is a parameter, like `in_loop_thread` and the answers of `write`; it is `none` where
-- the callback does not return. The buffer that `onMessage` is called with is the input buffer of the connection.
pub mod Answers
mod Tests
use network_library.Prelude.{
  ℕ, Bool, true, false, ◌&&◌, ◌||◌, not, List, [], ◌∷◌, ◌++◌, Option, none, some, if◌then◌else◌,
}
use network_library.Prelude.Options.{◌>>=◌}
use network_library.Buffer.{Buffer, WriteResult, new, initial_size}
use network_library.Http.Text.{bytes_of, same_bytes}
use network_library.Http.Request.{Request, Version, unknown, http10, http11, get_header}
use network_library.Http.Context.{
  HttpContext, new_context, Outcome, returned, undefined, out_of_fuel, got_all, parse_request,
}
use network_library.Http.Response.{
  Response, new_response, append_to_buffer, set_status_code, set_status_message, set_is_keep_alive,
}
use network_library.TcpConnection.{Connection, send, send_buffer, shutdown}

-- `defaultHttpCallback`
abbrev pub default_http_callback : Request → Response → Option Response
default_http_callback request r =
    some
      (set_is_keep_alive true (set_status_message (bytes_of "Not Found") (set_status_code 404 r)))

abbrev pub is_http10 : Version → Bool
is_http10 http10 = true
is_http10 _ = false

-- The local `isKeepAlive` of `onRequest`, which says that the connection is to be closed.
abbrev pub asks_close : Request → Bool
asks_close r =
    same_bytes (get_header (bytes_of "Connection") r) (bytes_of "close")
    || (is_http10 r.version
        && not (same_bytes (get_header (bytes_of "Connection") r) (bytes_of "Keep-Alive")))

abbrev pub bad_request : List ℕ
bad_request = bytes_of "HTTP/1.1 400 Bad Request" ++ 13 ∷ 10 ∷ 13 ∷ 10 ∷ []

module _ (http_callback : Request → Response → Option Response) (in_loop_thread : Bool) where
  -- `onRequest`
  unfoldable pub on_request : WriteResult → Request → Connection → Option Connection
  on_request answer request c = do
    response ← http_callback request (new_response (asks_close request))
    buf ← append_to_buffer response (new initial_size)
    (_, c1) ← send_buffer in_loop_thread answer buf c
    some (if response.is_keep_alive then shutdown c1 else c1)

  -- The first `if` of `onMessage`.
  unfoldable pub refuse : Bool → WriteResult → Connection → Option Connection
  refuse true answer c = some c
  refuse false answer c = send in_loop_thread answer bad_request c >>= λ c1. some (shutdown c1)

  -- `onMessage`, behind the parser; `none` is also where the parser does something that C++ leaves undefined. The
  -- context that is reset at the end is gone with the call.
  unfoldable pub after_parse :
      WriteResult → WriteResult → Connection → Outcome (Buffer × HttpContext) → Option Connection
  after_parse refusal answer c undefined = none
  after_parse refusal answer c out_of_fuel = none
  after_parse refusal answer c (returned ok (input, context)) =
      refuse ok refusal (record c { input = input }) >>= λ c1.
      if got_all context then on_request answer context.request c1 else some c1

  unfoldable pub on_message : WriteResult → WriteResult → Connection → Option Connection
  on_message refusal answer c = after_parse refusal answer c (parse_request c.input new_context)
