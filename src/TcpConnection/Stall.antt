-- ===== src/TcpConnection/Stall.antt =====
-- Bytes in the output buffer of a channel that does not wait to write them stay there.
use network_library.Prelude.{
  ℕ, ◌+◌, ◌≤◌, ◌<◌, ◌≡◌, refl, ap, sym, ◌∙◌, true, false, List, [], ◌∷◌, some, arith, length, drop,
  subst, length-append, Bool-cases, inl, inr,
}
use network_library.Prelude.Options.{>>=-eq-some, some_inj}
use network_library.Buffer.{Buffer, readable_bytes, WriteResult, ReadResult}
use network_library.Buffer.{max_size}
use network_library.Buffer
use network_library.Buffer.Valid.{IsValid}
use network_library.Buffer.Contents.{contents, length-contents}
use network_library.TcpConnection.Stream.{sent, Saved, save_rest-Saved}
use network_library.TcpConnection.{
  Connection, send, send_in_loop, save_rest, no_attempt, shutdown, shutdown_in_loop,
  connect_established, connect_destroyed, handle_read, handle_write, handle_close, handle_error,
  after_read, is_disconnected, is_connected,
}
use network_library.TcpConnection.Events.{
  Event, sends, sends_in_loop, reads, writes, shuts, shuts_in_loop, closes, establishes, destroys,
  step, run, bulk, bulk_of,
}
use network_library.TcpConnection.Quiet.{IsQuiet, save_rest-IsQuiet}

-- Bytes wait in the output buffer, and the channel does not wait to write them.
pub record IsStalled (c : Connection) : Type 0 where
  pub quiet : IsQuiet c
  pub valid : IsValid c.output
  pub waiting : 0 < length (contents c.output)

-- Still stalled, nothing more given to the kernel, and the output buffer at most `n` bytes longer.
record Stuck (n : ℕ) (c c' : Connection) : Type 0 where
  stalled : IsStalled c'
  same : sent c'.log ≡ sent c.log
  behind : c'.output.writer_index ≤ c.output.writer_index + n

same-Stuck :
    (n : ℕ) (c c' : Connection)
    → IsStalled c
    → c'.output ≡ c.output
    → IsQuiet c'
    → sent c'.log ≡ sent c.log
    → Stuck n c c'
same-Stuck n c c' s o q l = ground arith

Saved-Stuck :
    (bytes : List ℕ) (c d : Connection)
    → IsStalled c
    → IsQuiet d
    → Saved bytes (no_attempt bytes c) d
    → Stuck (length bytes) c d
unfolding no_attempt
Saved-Stuck bytes c d s q saved = record {
  stalled = record {
    quiet = q;
    valid = saved.valid;
    waiting =
        omega (
          arith,
          ap length saved.saved,
          length-append (contents c.output) (drop 0 bytes),
          s.waiting,
        );
  };
  same = saved.kept;
  behind = saved.behind;
}

sends_in_loop-Stuck :
    (answer : WriteResult) (bytes : List ℕ) (c c' : Connection)
    → IsStalled c
    → c.output.writer_index + length bytes ≤ max_size
    → send_in_loop answer bytes c ≡ some c'
    → Stuck (length bytes) c c'
unfolding send_in_loop
sends_in_loop-Stuck answer bytes c c' s h e =
    let (d, saved) =
      save_rest-Saved bytes (no_attempt bytes c) (unfold no_attempt in refl)
        (unfold no_attempt in omega arith) (unfold no_attempt in s.valid)
        (unfold no_attempt in h) in
    elim (Bool-cases (is_disconnected c.state)) [
      | inl down ↦ same-Stuck (length bytes) c c' s (ground arith) (ground arith) (ground arith)
      | inr up ↦
          let path : send_in_loop answer bytes c ≡ save_rest bytes (no_attempt bytes c) =
            ground (arith, length-contents s.valid) in
          let result : c' ≡ d = some_inj (sym e ∙ path ∙ saved.done) in
          let quiet : IsQuiet d =
            save_rest-IsQuiet bytes (no_attempt bytes c) d (unfold no_attempt in s.quiet)
              saved.done in
          rw result (Saved-Stuck bytes c d s quiet saved)
    ]

after_read-Stuck :
    (time : ℕ) (r : ReadResult) (c c' : Connection)
    → IsStalled c
    → c'.output ≡ c.output
    → IsQuiet c'
    → c'.log ≡ c.log
    → Stuck 0 c (after_read time r c')
unfolding after_read handle_close handle_error sent
after_read-Stuck time (ReadResult.failed errno) c c' s o q l = same-Stuck 0 c c' s o q (ap sent l)
after_read-Stuck time (ReadResult.received []) c c' s o q l = same-Stuck 0 c _ s o refl (ap sent l)
after_read-Stuck time (ReadResult.received (x ∷ xs)) c c' s o q l =
    same-Stuck 0 c _ s o q (ap sent l)

reads-Stuck :
    (time : ℕ) (readv : ℕ → ReadResult) (c c' : Connection)
    → IsStalled c
    → handle_read time readv c ≡ some c'
    → Stuck 0 c c'
unfolding handle_read
reads-Stuck time readv c c' s e =
    let (r, got, done) = >>=-eq-some (Buffer.read_fd readv c.input) _ e in
    subst (Stuck 0 c) (some_inj done)
      (after_read-Stuck time r.0 c (record c { input = r.1 }) s refl s.quiet refl)

writes-Stuck :
    (write : List ℕ → WriteResult) (c : Connection) → IsStalled c → Stuck 0 c (handle_write write c)
unfolding handle_write
writes-Stuck write c s = rw (s.quiet) (same-Stuck 0 c c s refl s.quiet refl)

step-Stuck :
    (e : Event) (c c' : Connection)
    → IsStalled c
    → c.output.writer_index + bulk e ≤ max_size
    → step e c ≡ some c'
    → Stuck (bulk e) c c'
unfolding step sent send shutdown shutdown_in_loop handle_close connect_established
    connect_destroyed
step-Stuck (sends true answer bytes) c c' s h e = elim (Bool-cases (is_connected c.state)) [
  | inl up ↦ sends_in_loop-Stuck answer bytes c c' s h (rw up at e)
  | inr down ↦ same-Stuck (length bytes) c c' s (ground arith) (ground arith) (ground arith)
]
step-Stuck (sends false answer bytes) c c' s h e =
    same-Stuck (length bytes) c c' s (ground arith) (ground arith) (ground arith)
step-Stuck (sends_in_loop answer bytes) c c' s h e = sends_in_loop-Stuck answer bytes c c' s h e
step-Stuck (reads time readv) c c' s h e = reads-Stuck time readv c c' s e
step-Stuck (writes write) c c' s h e = subst (Stuck 0 c) (some_inj e) (writes-Stuck write c s)
step-Stuck shuts c c' s h e = same-Stuck 0 c c' s (ground arith) (ground arith) (ground arith)
step-Stuck shuts_in_loop c c' s h e =
    same-Stuck 0 c c' s (ground arith) (ground arith) (ground arith)
step-Stuck closes c c' s h e = same-Stuck 0 c c' s (ground arith) (ground arith) (ground arith)
step-Stuck establishes c c' s h e = same-Stuck 0 c c' s (ground arith) (ground arith) (ground arith)
step-Stuck destroys c c' s h e = same-Stuck 0 c c' s (ground arith) (ground arith) (ground arith)

-- Once bytes wait in the output buffer of a channel that does not wait to write, no sequence of
-- sends, write and read events, shutdowns and closes ever hands another byte to the kernel, and
-- the bytes still wait at the end. The hypothesis: the output buffer may grow by what is sent.
pub run-stalled :
    (es : List Event) (c c' : Connection)
    → IsStalled c
    → c.output.writer_index + bulk_of es ≤ max_size
    → run es c ≡ some c'
    → IsStalled c' × (sent c'.log ≡ sent c.log)
unfolding run
run-stalled [] c c' s h e =
    subst (λ d. IsStalled d × (sent d.log ≡ sent c.log)) (some_inj e) (s, refl)
run-stalled (e ∷ es) c c' s h r =
    let (d, first, later) = >>=-eq-some (step e c) (run es) r in
    let k = step-Stuck e c d s (omega arith) first in
    let (t, same) = run-stalled es d c' k.stalled (omega (arith, k.behind)) later in
    (t, same ∙ k.same)
