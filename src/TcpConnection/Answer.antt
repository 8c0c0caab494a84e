-- ===== src/TcpConnection/Answer.antt =====
-- src/net/TcpConnection.cc: a send of a buffer in the thread of the loop, and what no send changes.
use network_library.Prelude.{
  ℕ, ◌+◌, ◌≤◌, ◌≡◌, refl, ap, ◌∙◌, subst, Bool-cases, inl, inr, true, not, ◌&&◌, List, [], ◌∷◌,
  ◌++◌, Option, some, arith, length, take, drop, ltb, ◌==◌,
}
use network_library.Prelude.Options.{◌>>=◌, >>=-eq-some, some_inj}
use network_library.Buffer
use network_library.Buffer.{
  Buffer, max_size, retrieve_all, readable_bytes, peek, WriteResult, ReadResult, append,
}
use network_library.Buffer.Valid.{IsValid, sizes}
use network_library.Buffer.Contents.{contents, contents-retrieve_all}
use network_library.Channel.{is_writing}
use network_library.TcpConnection.{
  Connection, connected, Attempt, attempt_write, no_attempt, warn_high_water, keep_writing,
  save_rest, send_in_loop, send, send_buffer, handle_read, after_read, is_connected,
  is_disconnected,
}
use network_library.TcpConnection.Stream.{stream, sent, HonoursCount, IsFatal, send_in_loop-Streams}

-- Only the channel, the output buffer and the log have changed.
pub record Touched (c c' : Connection) : Type 0 where
  pub state : c'.state ≡ c.state
  pub input : c'.input ≡ c.input

keep-Touched :
    (n : ℕ) (c : Connection) (out : Buffer)
    → Touched c (keep_writing (record (warn_high_water n c) { output = out }))
unfolding keep_writing warn_high_water
keep-Touched n c out = ground arith

attempt-Touched :
    (answer : WriteResult) (bytes : List ℕ) (c : Connection)
    → Touched c (attempt_write answer bytes c).conn
unfolding attempt_write
attempt-Touched (WriteResult.wrote n) bytes c = ground arith
attempt-Touched (WriteResult.failed errno) bytes c = record { state = refl; input = refl }

save_rest-Touched :
    (bytes : List ℕ) (a : Attempt) (c c' : Connection)
    → Touched c a.conn
    → save_rest bytes a ≡ some c'
    → Touched c c'
unfolding save_rest
save_rest-Touched bytes a c c' k e = elim (Bool-cases (not a.fault_error && ltb 0 a.remaining)) [
  | inr kept ↦ subst (Touched c) (some_inj (rw kept at e)) k
  | inl rest ↦
      let (out, got, done) =
        >>=-eq-some (append (drop a.nwrote bytes) a.conn.output) _ (rw rest at e) in
      let t = keep-Touched a.remaining a.conn out in
      subst (Touched c) (some_inj done)
        (record { state = t.state ∙ k.state; input = t.input ∙ k.input })
]

pub send_in_loop-Touched :
    (answer : WriteResult) (bytes : List ℕ) (c c' : Connection)
    → send_in_loop answer bytes c ≡ some c'
    → Touched c c'
unfolding send_in_loop
send_in_loop-Touched answer bytes c c' e = elim (Bool-cases (is_disconnected c.state)) [
  | inl down ↦ subst (Touched c) (some_inj (rw down at e)) (record { state = refl; input = refl })
  | inr up ↦ elim (Bool-cases (not (is_writing c.channel) && readable_bytes c.output == 0)) [
    | inl idle ↦
        save_rest-Touched bytes _ c c' (attempt-Touched answer bytes c) (rw (up, idle) at e)
    | inr busy ↦
        save_rest-Touched bytes (no_attempt bytes c) c c'
          (unfold no_attempt in record { state = refl; input = refl }) (rw (up, busy) at e)
  ]
]

-- A buffer that was sent is empty, its bytes stand behind the stream of the connection.
pub record Sent (bytes : List ℕ) (c : Connection) (r : Option (Buffer × Connection)) : Type 0 where
  pub buffer : Buffer
  pub conn : Connection
  pub returns : r ≡ some (buffer, conn)
  pub emptied : contents buffer ≡ []
  pub valid : IsValid conn.output
  pub streams : stream conn ≡ stream c ++ bytes
  pub touched : Touched c conn

send_buffer-done :
    (answer : WriteResult) (bytes : List ℕ) (buf : Buffer) (c c' : Connection)
    → is_connected c.state ≡ true
    → take (readable_bytes buf) (drop (peek buf) buf.buffer) ≡ bytes
    → send_in_loop answer bytes c ≡ some c'
    → send_buffer true answer buf c ≡ some (retrieve_all buf, c')
unfolding send_buffer
send_buffer-done answer bytes buf c c' alive e done = rw (alive, e, done) refl

pub send_buffer-Sent :
    (answer : WriteResult) (buf : Buffer) (c : Connection)
    → c.state ≡ connected
    → IsValid buf
    → HonoursCount answer (contents buf)
    → ¬ IsFatal answer
    → IsValid c.output
    → c.output.writer_index + length (contents buf) ≤ max_size
    → Sent (contents buf) c (send_buffer true answer buf c)
unfolding send_buffer
send_buffer-Sent answer buf c up w honest fine v small =
    let bytes : take (readable_bytes buf) (drop (peek buf) buf.buffer) ≡ contents buf =
      ap (λ n. take n (drop buf.reader_index buf.buffer)) (sizes w).0 in
    let (c', e, valid, s) =
      send_in_loop-Streams answer (contents buf) c (λ down. cc) honest fine v small in
    record {
      buffer = retrieve_all buf;
      conn = c';
      returns = send_buffer-done answer (contents buf) buf c c' (ap is_connected up) bytes e;
      emptied = contents-retrieve_all buf;
      valid = valid;
      streams = s;
      touched = send_in_loop-Touched answer (contents buf) c c' e;
    }

-- send in the thread of the loop.
pub send-send_in_loop :
    (answer : WriteResult) (bytes : List ℕ) (c : Connection)
    → c.state ≡ connected
    → send true answer bytes c ≡ send_in_loop answer bytes c
unfolding send
send-send_in_loop answer bytes c up = rw (ap is_connected up) refl

-- A read event that brings bytes leaves them in the input buffer, and changes nothing else but the log.
pub handle_read-received :
    (time : ℕ) (readv : ℕ → ReadResult) (x : ℕ) (xs : List ℕ) (c : Connection) (input : Buffer)
    → Buffer.read_fd readv c.input ≡ some (ReadResult.received (x ∷ xs), input)
    → (c1 : Connection) × (handle_read time readv c ≡ some c1)
      × (stream c1 ≡ stream c)
      × (c1.state ≡ c.state)
      × (c1.input ≡ input)
      × (c1.output ≡ c.output)
      × (c1.channel ≡ c.channel)
      × (sent c1.log ≡ sent c.log)
unfolding handle_read after_read stream sent
handle_read-received time readv x xs c input e = (
  after_read time (ReadResult.received (x ∷ xs)) (record c { input = input }),
  ap (λ m. m >>= λ r. some (after_read time r.0 (record c { input = r.1 }))) e,
  refl,
  refl,
  refl,
  refl,
  refl,
  refl,
)
