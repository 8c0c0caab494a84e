-- ===== src/WebServer/Answers.antt =====
-- src/http/WebServer.cc: a whole request is answered with the text of the response that the callback makes.
use network_library.Prelude.{
  ℕ, ◌+◌, ◌≤◌, ◌≡◌, refl, ap, sym, ◌∙◌, subst, Bool, true, ◌&&◌, List, [], ◌++◌, Option, some,
  arith, length, if◌then◌else◌, Bool-cases, inl, inr,
}
use network_library.Prelude.Options.{>>=-some}
use network_library.Buffer.{Buffer, WriteResult, max_size, new, initial_size}
use network_library.Buffer.Valid.{IsValid, new-IsValid}
use network_library.Buffer.Contents.{contents, contents-new}
use network_library.Http.Text.{lacks}
use network_library.Http.Lines.{space, cr}
use network_library.Http.Request.{Request, Entries}
use network_library.Http.RoundTrip.{request_text, are_fields, parsed, parse_request-request_text}
use network_library.Http.Response.{Response, new_response}
use network_library.Http.Printing.{response_text, append_to_buffer_lem}
use network_library.TcpConnection.{Connection, connected, disconnecting, shutdown}
use network_library.TcpConnection.Stream.{sent, stream, HonoursCount, IsFatal}
use network_library.TcpConnection.Answer.{send_buffer-Sent}
use network_library.WebServer.{asks_close, on_request, refuse, after_parse, on_message}

-- A connection that has sent `text` behind what it sent before, and is being shut down if `closes` says so.
pub record Answered (text : List ℕ) (closes : Bool) (c : Connection) (r : Option Connection)
    : Type 0 where
  pub after : Connection
  pub returns : r ≡ some after
  pub streams : stream after ≡ stream c ++ text
  pub state : after.state ≡ (if closes then disconnecting else connected)
  pub input : after.input ≡ c.input

shutdown-stream : (c : Connection) → stream (shutdown c) ≡ stream c
unfolding shutdown stream sent
shutdown-stream c = ground arith

pub shutdown-Answered :
    (text : List ℕ) (closes : Bool) (c c1 : Connection)
    → c1.state ≡ connected
    → c1.input ≡ c.input
    → stream c1 ≡ stream c ++ text
    → Answered text closes c (some (if closes then shutdown c1 else c1))
unfolding shutdown stream
shutdown-Answered text closes c c1 up input s = elim (Bool-cases closes) [
  | inl close ↦
      subst (λ b. Answered text b c (some (if b then shutdown c1 else c1))) (sym close)
        (record {
          after = shutdown c1;
          returns = refl;
          streams = shutdown-stream c1 ∙ s;
          state = rw up refl;
          input = rw up input;
        })
  | inr keep ↦
      subst (λ b. Answered text b c (some (if b then shutdown c1 else c1))) (sym keep)
        (record { after = c1; returns = refl; streams = s; state = up; input = input })
]

module _ (http_callback : Request → Response → Option Response) where
  on_request-Answered :
      (answer : WriteResult) (request : Request) (response : Response) (c : Connection)
      → http_callback request (new_response (asks_close request)) ≡ some response
      → c.state ≡ connected
      → IsValid c.output
      → HonoursCount answer (response_text response)
      → ¬ IsFatal answer
      → c.output.writer_index + length (response_text response) + 1032 ≤ max_size
      → Answered
          (response_text response)
          response.is_keep_alive
          c
          (on_request http_callback true answer request c)
  unfolding on_request
  on_request-Answered answer request response c made up v honest fine small =
      let start : (new initial_size).writer_index ≡ 8 = unfold new in refl in
      let (buf, printed, w, text) =
        append_to_buffer_lem response (new initial_size) (new-IsValid initial_size (omega arith))
          (omega (arith, small, start)) in
      let whole : contents buf ≡ response_text response =
        text ∙ ap (λ xs. xs ++ response_text response) (contents-new initial_size) in
      let s =
        send_buffer-Sent answer buf c up w (subst (HonoursCount answer) (sym whole) honest) fine v
          (omega (arith, small, ap length whole)) in
      let e = >>=-some _ made (>>=-some _ printed (>>=-some _ s.returns refl)) in
      subst (Answered (response_text response) response.is_keep_alive c) (sym e) (
        shutdown-Answered (response_text response) response.is_keep_alive c s.conn
          (s.touched.state ∙ up) s.touched.input (s.streams ∙ ap (λ xs. stream c ++ xs) whole))

  message-request_text :
      (refusal answer : WriteResult) (path : List ℕ) (fs : Entries) (c : Connection)
      → IsValid c.input
      → contents c.input ≡ request_text path fs
      → (lacks space path && lacks cr path) ≡ true
      → are_fields fs ≡ true
      → (input : Buffer) × (contents input ≡ [])
        × (on_message http_callback true refusal answer c
            ≡ on_request http_callback true answer
                (parsed path fs).request
                (record c { input = input }))
  unfolding on_message after_parse refuse
  message-request_text refusal answer path fs c v reads h k =
      let (input, e, w, empty) = parse_request-request_text c.input path fs v reads h k in
      (input, empty, ap (after_parse http_callback true refusal answer c) e)

  -- Where the input buffer of a connection that is up reads a GET request of HTTP/1.1, with a path without a space or CR
  -- and printable header fields, onMessage in the thread of the loop takes the request out of the buffer, puts the text
  -- of the response that the callback makes of it behind the bytes that the connection has sent, and asks for the
  -- shutdown of the connection exactly when the response says so. The hypotheses: write takes no more than it is given
  -- and answers neither EPIPE nor ECONNRESET, and the output buffer may grow by the response.
  pub on_message-response_text :
      (refusal answer : WriteResult) (path : List ℕ) (fs : Entries) (response : Response)
      (c : Connection)
      → IsValid c.input
      → contents c.input ≡ request_text path fs
      → (lacks space path && lacks cr path) ≡ true
      → are_fields fs ≡ true
      → http_callback (parsed path fs).request (new_response (asks_close (parsed path fs).request))
        ≡ some response
      → c.state ≡ connected
      → IsValid c.output
      → HonoursCount answer (response_text response)
      → ¬ IsFatal answer
      → c.output.writer_index + length (response_text response) + 1032 ≤ max_size
      → (after : Connection) × (on_message http_callback true refusal answer c ≡ some after)
        × (stream after ≡ stream c ++ response_text response)
        × (after.state ≡ (if response.is_keep_alive then disconnecting else connected))
        × (contents after.input ≡ [])
  unfolding stream
  on_message-response_text refusal answer path fs response c w reads h k made up v honest fine
        small =
      let (input, empty, e) = message-request_text refusal answer path fs c w reads h k in
      let a =
        on_request-Answered answer (parsed path fs).request response (record c { input = input })
          made up v honest fine small in
      (a.after, e ∙ a.returns, a.streams, a.state, ap contents a.input ∙ empty)
