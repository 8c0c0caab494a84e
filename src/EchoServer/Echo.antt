-- ===== src/EchoServer/Echo.antt =====
-- src/example/testserver.cc: what becomes of the bytes that arrive.
use network_library.Prelude.{
  ℕ, ◌+◌, ◌≤◌, ◌≡◌, sym, ap, ap₂, ◌∙◌, subst, true, not, ◌&&◌, List, [], ◌∷◌, ◌++◌, Option, some,
  length, take, ◌==◌, if◌then◌else◌,
}
use network_library.Prelude.Options.{◌>>=◌, some_inj}
use network_library.Buffer.{
  Buffer, ReadResult, WriteResult, max_size, retrieve_all_as_string, read_room, extra_size,
  readable_bytes,
}
use network_library.Buffer.Valid.{IsValid}
use network_library.Buffer.Contents.{contents, retrieve_all_as_string-contents}
use network_library.Buffer.ReadFd.{HonoursRoom, bytes_of, read_fd_lem}
use network_library.TcpConnection.{Connection, connected, disconnecting, send, shutdown}
use network_library.Channel.{is_writing}
use network_library.TcpConnection.Direct.{count, at_once, send_in_loop-sent, shutdown-sent}
use network_library.TcpConnection.Stream.{stream, sent, HonoursCount, IsFatal, send_in_loop-Streams}
use network_library.TcpConnection.Answer.{
  send_in_loop-Touched, send-send_in_loop, handle_read-received,
}
use network_library.WebServer.Answers.{shutdown-Answered}
use network_library.EchoServer.{on_message, serve}

-- What the connection has after a message was handed to `send`, whose write takes `taken` bytes of it: the kernel has
-- these, the rest is in the output buffer behind what waited there, nothing is left to read, and the connection is
-- being shut down.
abbrev pub Echoes : ℕ → List ℕ → Connection → Option Connection → Type 0
Echoes taken text c r =
    (after : Connection) × (r ≡ some after)
    × (sent after.log ≡ sent c.log ++ take taken text)
    × (stream after ≡ stream c ++ text)
    × (after.state ≡ disconnecting)
    × (contents after.input ≡ [])

on_message-Echoes :
    (answer : WriteResult) (c : Connection)
    → c.state ≡ connected
    → IsValid c.input
    → HonoursCount answer (contents c.input)
    → ¬ IsFatal answer
    → IsValid c.output
    → c.output.writer_index + length (contents c.input) ≤ max_size
    → Echoes (at_once answer c) (contents c.input) c (on_message true answer c)
unfolding on_message stream
on_message-Echoes answer c up vi honest fine vo small =
    let (text, emptied) = retrieve_all_as_string-contents vi in
    let read : Connection = record c { input = (retrieve_all_as_string c.input).1 } in
    let (c1, e, valid, s) =
      send_in_loop-Streams answer (contents c.input) read (λ down. cc) honest fine vo small in
    let t = send_in_loop-Touched answer (contents c.input) read c1 e in
    let a = shutdown-Answered (contents c.input) true read c1 (t.state ∙ up) t.input s in
    (
      a.after,
      ap (λ m. send true answer m read >>= λ k. some (shutdown k)) text
          ∙ ap (λ m. m >>= λ k. some (shutdown k))
              (send-send_in_loop answer (contents c.input) read up ∙ e)
          ∙ a.returns,
      ap (λ k. sent k.log) (sym (some_inj a.returns))
          ∙ shutdown-sent c1
          ∙ send_in_loop-sent answer (contents c.input) read c1 (λ down. cc) e,
      a.streams,
      a.state,
      ap contents a.input ∙ emptied,
    )

-- Whatever bytes arrive at a connection that is up, the server puts them, behind those that were waiting to be read, in
-- order behind its stream, which is the bytes that the kernel has taken and then those in the output buffer. The kernel
-- gets at once what the one write takes of them, all of them where it takes all, and nothing where the connection is
-- writing or has bytes that wait; the rest is in the output buffer. Nothing is left to read, and the connection is being
-- shut down. readv honours its room and brings some bytes, write takes no more than it is given and does not fail with
-- EPIPE or ECONNRESET, and the buffers are valid and may grow by the bytes.
pub serve-Echoes :
    (time : ℕ) (readv : ℕ → ReadResult) (answer : WriteResult) (x : ℕ) (xs : List ℕ)
    (c : Connection)
    → c.state ≡ connected
    → IsValid c.input
    → IsValid c.output
    → HonoursRoom readv
    → readv (read_room c.input) ≡ ReadResult.received (x ∷ xs)
    → length c.input.buffer + extra_size ≤ max_size
    → HonoursCount answer (contents c.input ++ x ∷ xs)
    → ¬ IsFatal answer
    → c.output.writer_index + length (contents c.input ++ x ∷ xs) ≤ max_size
    → Echoes (at_once answer c) (contents c.input ++ x ∷ xs) c (serve time readv answer c)
unfolding serve
serve-Echoes time readv answer x xs c up vi vo honours arrives room honest fine small =
    let (input, read, w, got) = read_fd_lem readv honours vi room in
    let all : contents input ≡ contents c.input ++ x ∷ xs =
      got ∙ ap (λ r. contents c.input ++ bytes_of r) arrives in
    let (c1, ran, same, state, fed, out, channel, log) =
      handle_read-received time readv x xs c input (read ∙ ap (λ r. some (r, input)) arrives) in
    let seen : contents c1.input ≡ contents c.input ++ x ∷ xs = ap contents fed ∙ all in
    let (after, e, gone, streams, down, empty) =
      on_message-Echoes answer c1 (state ∙ up) (subst IsValid (sym fed) w)
        (subst (HonoursCount answer) (sym seen) honest) fine (subst IsValid (sym out) vo)
        (subst (λ (b : Buffer). b.writer_index + length (contents c1.input) ≤ max_size) (sym out)
          (subst (λ t. c.output.writer_index + length t ≤ max_size) (sym seen) small)) in
    (
      after,
      ap (λ m. m >>= on_message true answer) ran ∙ e,
      gone
          ∙ ap₂ (λ s t. s ++ t) log
              (ap₂ (λ n t. take n t)
                (ap₂
                  (λ ch (b : Buffer).
                    if not (is_writing ch) && (readable_bytes b == 0) then count answer else 0)
                  channel out)
                seen),
      streams ∙ ap₂ (λ s t. s ++ t) same seen,
      down,
      empty,
    )
