-- ===== src/TcpConnection/Partial.antt =====
-- A send that the kernel takes in part.
use network_library.Prelude.{
  ℕ, ◌+◌, ◌≤◌, ◌<◌, ◌≡◌, ap, sym, ◌∙◌, true, List, [], ◌++◌, some, arith, length, take, drop, subst,
  length-drop, length-append,
}
use network_library.Prelude.Options.{some_inj}
use network_library.Buffer.{WriteResult}
use network_library.Buffer.{max_size}
use network_library.Buffer.Valid.{IsValid}
use network_library.Buffer.Contents.{contents, length-contents}
use network_library.TcpConnection.Stream.{sent, save_rest-Saved, attempt_wrote}
use network_library.TcpConnection.{
  Connection, connected, new, send, send_in_loop, save_rest, attempt_write,
}
use network_library.TcpConnection.Events.{Event, run, bulk_of}
use network_library.TcpConnection.Quiet.{
  IsQuiet, save_rest-IsQuiet, attempt-channel, run-new-IsQuiet,
}
use network_library.TcpConnection.Stall.{IsStalled, run-stalled}

-- What a send into an empty output buffer leaves when the kernel takes only `n` of the bytes.
partial_send-IsStalled :
    (n : ℕ) (bytes : List ℕ) (c c' : Connection)
    → IsQuiet c
    → c.state ≡ connected
    → IsValid c.output
    → contents c.output ≡ []
    → n < length bytes
    → c.output.writer_index + length bytes ≤ max_size
    → send true (WriteResult.wrote n) bytes c ≡ some c'
    → IsStalled c'
      × (sent c'.log ≡ sent c.log ++ take n bytes)
      × (c'.output.writer_index ≤ c.output.writer_index + length bytes)
unfolding send send_in_loop
partial_send-IsStalled n bytes c c' q up v empty part small e =
    let a = attempt_write (WriteResult.wrote n) bytes c in
    let (o, log, ok, w, r) = attempt_wrote n bytes c in
    let (d, saved) = save_rest-Saved bytes a ok (omega arith) (rw o v) (rw o small) in
    let path : some c' ≡ save_rest bytes a = ground (arith, length-contents v, ap length empty) in
    let result : d ≡ c' = some_inj (sym saved.done ∙ sym path) in
    subst
      (λ k.
        IsStalled k
        × (sent k.log ≡ sent c.log ++ take n bytes)
        × (k.output.writer_index ≤ c.output.writer_index + length bytes))
      result
      (
        record {
          quiet =
              save_rest-IsQuiet bytes a d (rw (attempt-channel (WriteResult.wrote n) bytes c) q)
                saved.done;
          valid = saved.valid;
          waiting = omega (
            arith,
            ap length saved.saved,
            length-append (contents a.conn.output) (drop a.nwrote bytes),
            length-drop a.nwrote bytes,
            w,
          );
        },
        saved.kept ∙ log,
        omega (arith, saved.behind, ap (λ b. b.writer_index) o),
      )

-- A send that the kernel takes in part loses its rest: in no later history is another byte handed
-- to the kernel, and bytes are left in the output buffer at its end. The hypotheses: the connection
-- has any history, is connected, and had nothing left to write; the kernel takes fewer bytes than
-- it is given; and the output buffer may grow by all that is sent.
pub partial_send_stalls :
    (fd n : ℕ) (bytes : List ℕ) (before after : List Event) (c c' c'' : Connection)
    → run before (new fd) ≡ some c
    → c.state ≡ connected
    → IsValid c.output
    → contents c.output ≡ []
    → n < length bytes
    → c.output.writer_index + length bytes + bulk_of after ≤ max_size
    → send true (WriteResult.wrote n) bytes c ≡ some c'
    → run after c' ≡ some c''
    → (sent c''.log ≡ sent c.log ++ take n bytes) × (0 < length (contents c''.output))
partial_send_stalls fd n bytes before after c c' c'' history up v empty part small e later =
    let (s, log, behind) =
      partial_send-IsStalled n bytes c c' (run-new-IsQuiet fd before c history) up v empty part
        (omega arith) e in
    let (t, same) = run-stalled after c' c'' s (omega arith) later in (same ∙ log, t.waiting)
