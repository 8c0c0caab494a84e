-- ===== src/TcpConnection/Stream.antt =====
-- The bytes of a connection: what the kernel has taken, then what waits in the output buffer.
use network_library.Prelude.{
  ℕ, ◌+◌, ◌-◌, ◌≤◌, ◌≡◌, ◌≢◌, ◌⊎◌, refl, ap, sym, ◌∙◌, true, false, List, [], ◌∷◌, ◌++◌, Option,
  some, arith, length, take, drop, inl, inr, ltb, Bool-cases, length-drop, take-append-drop,
  take-take, not, ◌&&◌, ltb→le, ◌==◌, drop-all,
}
use mathlib.Core.List.{append_assoc, append-nil}
use network_library.Prelude.Words.{sub_size}
use network_library.Buffer.{max_size, readable_bytes, WriteResult}
use network_library.Buffer.Valid.{IsValid, retrieve-IsValid}
use network_library.Buffer.Contents.{contents, length-contents, contents-retrieve}
use network_library.Buffer.Append.{append_lem}
use network_library.Buffer.ReadFd.{writ_fd-contents}
use network_library.Channel.{is_writing}
use network_library.TcpConnection.{
  Connection, disconnected, Effect, to_kernel, Attempt, attempt_write, no_attempt, warn_high_water,
  keep_writing, save_rest, send_in_loop, handle_write, consume_output, written, finish_write,
  shutdown_in_loop, is_disconnected,
}

-- The bytes that the kernel has accepted, in order.
unfoldable pub sent : List Effect → List ℕ
sent [] = []
sent (to_kernel bytes ∷ log) = sent log ++ bytes
sent (_ ∷ log) = sent log

unfoldable pub stream : Connection → List ℕ
stream c = sent c.log ++ contents c.output

-- What the second half of `sendInLoop` does when there was no fault.
pub record Saved (bytes : List ℕ) (a : Attempt) (c' : Connection) : Type 0 where
  pub done : save_rest bytes a ≡ some c'
  pub valid : IsValid c'.output
  pub kept : sent c'.log ≡ sent a.conn.log
  pub saved : contents c'.output ≡ contents a.conn.output ++ drop a.nwrote bytes
  pub behind : c'.output.writer_index ≤ a.conn.output.writer_index + length bytes

pub sent-keep_writing :
    (c : Connection)
    → (sent (keep_writing c).log ≡ sent c.log) × ((keep_writing c).output ≡ c.output)
unfolding keep_writing sent
sent-keep_writing c = ground arith

pub sent-warn_high_water : (n : ℕ) (c : Connection) → sent (warn_high_water n c).log ≡ sent c.log
unfolding warn_high_water sent
sent-warn_high_water n c = ground arith

pub save_rest-Saved :
    (bytes : List ℕ) (a : Attempt)
    → a.fault_error ≡ false
    → a.remaining ≡ length bytes - a.nwrote
    → IsValid a.conn.output
    → a.conn.output.writer_index + length bytes ≤ max_size
    → (c' : Connection) × Saved bytes a c'
unfolding save_rest keep_writing
save_rest-Saved bytes a ok left v small = elim (Bool-cases (ltb 0 a.remaining)) [
  | inr none_left ↦
      let nothing : drop a.nwrote bytes ≡ [] =
        drop-all a.nwrote bytes (omega (arith, ltb→le 0 a.remaining none_left)) in
      (
        a.conn,
        record {
          done = rw (ok, none_left, save_rest);
          valid = v;
          kept = refl;
          saved = rw nothing (sym (append-nil (contents a.conn.output)));
          behind = omega arith;
        },
      )
  | inl some_left ↦
      let rest = drop a.nwrote bytes in
      let (out, e, w, c, behind) = append_lem rest v (omega (arith, length-drop a.nwrote bytes)) in
      let warned = record (warn_high_water a.remaining a.conn) { output = out } in
      let (s, o) = sent-keep_writing warned in
      (
        keep_writing warned,
        record {
          done = rw (ok, some_left, e, save_rest);
          valid = rw o w;
          kept = s ∙ sent-warn_high_water a.remaining a.conn;
          saved = rw o c;
          behind = rw o (omega (arith, behind, length-drop a.nwrote bytes));
        },
      )
]

-- `write` takes no more bytes than it is given.
abbrev pub HonoursCount : WriteResult → List ℕ → Type 0
HonoursCount (WriteResult.wrote n) bytes = n ≤ length bytes
HonoursCount (WriteResult.failed errno) bytes = Unit

-- The answer is an `EPIPE` or an `ECONNRESET`.
abbrev pub IsFatal : WriteResult → Type 0
IsFatal (WriteResult.wrote n) = ⊥
IsFatal (WriteResult.failed errno) = (errno ≡ 32) ⊎ (errno ≡ 104)

-- A send ends in a valid buffer, with all the bytes behind the stream.
abbrev pub Streams : List ℕ → Connection → Option Connection → Type 0
Streams bytes c r =
    (c' : Connection) × (r ≡ some c') × IsValid c'.output × (stream c' ≡ stream c ++ bytes)

Saved-Streams :
    (bytes : List ℕ) (a : Attempt) (c : Connection)
    → a.conn.output ≡ c.output
    → sent a.conn.log ++ (contents c.output ++ drop a.nwrote bytes) ≡ stream c ++ bytes
    → (c' : Connection) × Saved bytes a c'
    → Streams bytes c (save_rest bytes a)
unfolding stream
Saved-Streams bytes a c e s (c', d) = (c', d.done, d.valid, rw (d.kept, d.saved, e) s)

no_attempt-Streams :
    (bytes : List ℕ) (c : Connection)
    → IsValid c.output
    → c.output.writer_index + length bytes ≤ max_size
    → Streams bytes c (save_rest bytes (no_attempt bytes c))
unfolding no_attempt stream
no_attempt-Streams bytes c v small =
    Saved-Streams bytes (no_attempt bytes c) c refl
      (sym (append_assoc (sent c.log) (contents c.output) bytes))
      (save_rest-Saved bytes (no_attempt bytes c) refl (omega arith) v small)

pub attempt_wrote :
    (n : ℕ) (bytes : List ℕ) (c : Connection)
    → let a = attempt_write (WriteResult.wrote n) bytes c in
      (a.conn.output ≡ c.output)
      × (sent a.conn.log ≡ sent c.log ++ take n bytes)
      × (a.fault_error ≡ false)
      × (a.nwrote ≡ n)
      × (a.remaining ≡ sub_size (length bytes) n)
unfolding attempt_write sent
attempt_wrote n bytes c = ground arith

attempt_failed :
    (errno : ℕ) (bytes : List ℕ) (c : Connection)
    → ¬ IsFatal (WriteResult.failed errno)
    → (attempt_write (WriteResult.failed errno) bytes c).fault_error ≡ false
unfolding attempt_write
attempt_failed errno bytes c h = ground (arith, h)

attempt-Streams :
    (answer : WriteResult) (bytes : List ℕ) (c : Connection)
    → HonoursCount answer bytes
    → ¬ IsFatal answer
    → contents c.output ≡ []
    → IsValid c.output
    → c.output.writer_index + length bytes ≤ max_size
    → Streams bytes c (save_rest bytes (attempt_write answer bytes c))
attempt-Streams (WriteResult.wrote n) bytes c honest fine empty v small =
    let a = attempt_write (WriteResult.wrote n) bytes c in
    let (o, s, ok, w, r) = attempt_wrote n bytes c in
    Saved-Streams bytes a c o
      (unfold stream in
        rw (s, w, empty, append-nil (sent c.log))
          (append_assoc (sent c.log) (take n bytes) (drop n bytes)
            ∙ ap (◌++◌ (sent c.log)) (take-append-drop n bytes)))
      (save_rest-Saved bytes a ok (omega arith) (rw o v) (rw o small))
attempt-Streams (WriteResult.failed errno) bytes c honest fine empty v small =
    let a = attempt_write (WriteResult.failed errno) bytes c in
    Saved-Streams bytes a c (unfold attempt_write in refl)
      (unfold attempt_write stream in sym (append_assoc (sent c.log) (contents c.output) bytes))
      (save_rest-Saved bytes a (attempt_failed errno bytes c fine)
        (unfold attempt_write in omega arith) (unfold attempt_write in v)
        (unfold attempt_write in small))

nil_of_length : (xs : List ℕ) → length xs ≡ 0 → xs ≡ []
nil_of_length [] h = refl
nil_of_length (x ∷ xs) h = absurd (omega arith)

-- Whatever `write` answers, short of `EPIPE` and `ECONNRESET`, `sendInLoop` puts exactly the given
-- bytes behind the connection's stream, partly into the kernel and the rest into the output buffer:
-- none is lost, doubled or reordered. The hypotheses: the connection is not disconnected, `write`
-- takes no more than it is given, and the output buffer is valid and may grow by the bytes.
pub send_in_loop-Streams :
    (answer : WriteResult) (bytes : List ℕ) (c : Connection)
    → c.state ≢ disconnected
    → HonoursCount answer bytes
    → ¬ IsFatal answer
    → IsValid c.output
    → c.output.writer_index + length bytes ≤ max_size
    → Streams bytes c (send_in_loop answer bytes c)
unfolding send_in_loop
send_in_loop-Streams answer bytes c up honest fine v small =
    elim (Bool-cases (not (is_writing c.channel) && (readable_bytes c.output == 0))) [
      | inr busy ↦ rw (alive, busy) (no_attempt-Streams bytes c v small)
      | inl idle ↦
          rw (alive, idle) (attempt-Streams answer bytes c honest fine (empty idle) v small)
    ]
  where
    alive : is_disconnected c.state ≡ false
    alive = ground arith

    empty :
        (not (is_writing c.channel) && (readable_bytes c.output == 0)) ≡ true
        → contents c.output ≡ []
    empty idle = nil_of_length (contents c.output) (length-contents v ∙ ground arith)

finish_write-sent :
    (c : Connection)
    → (sent (finish_write c).log ≡ sent c.log) × ((finish_write c).output ≡ c.output)
unfolding finish_write shutdown_in_loop sent
finish_write-sent c = ground arith

-- The output buffer is valid, and the stream is that of `c`.
abbrev pub Keeps : Connection → Connection → Type 0
Keeps c c' = IsValid c'.output × (stream c' ≡ stream c)

consume-Keeps :
    (n : ℕ) (c : Connection)
    → IsValid c.output
    → n ≤ length (contents c.output)
    → Keeps c (consume_output n c)
unfolding consume_output stream sent
consume-Keeps n c v h = (
  retrieve-IsValid n v,
  ap (λ xs. (sent c.log ++ front) ++ xs) (contents-retrieve n v)
      ∙ append_assoc (sent c.log) front (drop n (contents c.output))
      ∙ ap (◌++◌ (sent c.log)) (
          ap (λ xs. xs ++ drop n (contents c.output)) front-eq
          ∙ take-append-drop n (contents c.output)),
)
  where
    front : List ℕ
    front = take n (drop c.output.reader_index c.output.buffer)

    front-eq : front ≡ take n (contents c.output)
    front-eq = sym (
        take-take n (c.output.writer_index - c.output.reader_index)
          (drop c.output.reader_index c.output.buffer) (omega (arith, length-contents v)))

finish-Keeps : (c c' : Connection) → Keeps c c' → Keeps c (finish_write c')
unfolding stream
finish-Keeps c c' k = let (s, o) = finish_write-sent c' in (rw o k.0, rw (s, o) k.1)

written-Keeps :
    (answer : WriteResult) (c : Connection)
    → IsValid c.output
    → HonoursCount answer (contents c.output)
    → Keeps c (written answer c)
unfolding written
written-Keeps (WriteResult.wrote n) c v h =
    ground (arith, consume-Keeps n c v h, finish-Keeps c (consume_output n c))
written-Keeps (WriteResult.failed errno) c v h = (v, refl)

-- `handleWrite` only moves bytes from the output buffer to the kernel: the stream stays the same.
-- The hypotheses: `write` takes no more bytes than it is given, and the output buffer is valid.
pub handle_write-stream :
    (write : List ℕ → WriteResult) (c : Connection)
    → ((bytes : List ℕ) → HonoursCount (write bytes) bytes)
    → IsValid c.output
    → Keeps c (handle_write write c)
unfolding handle_write
handle_write-stream write c honest v = elim (Bool-cases (is_writing c.channel)) [
  | inr quiet ↦ rw quiet (v, refl)
  | inl writing ↦
      rw (writing, writ_fd-contents write v)
        (written-Keeps (write (contents c.output)) c v (honest (contents c.output)))
]
