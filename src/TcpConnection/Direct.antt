-- ===== src/TcpConnection/Direct.antt =====
-- src/net/TcpConnection.cc: what a send brings to the kernel at once.
use network_library.Prelude.{
  ℕ, ◌≡◌, ◌≢◌, ap, sym, ◌∙◌, Bool-cases, inl, inr, false, not, ◌&&◌, List, ◌++◌, some, take, drop,
  ltb, ◌==◌, arith, if◌then◌else◌,
}
use mathlib.Core.List.{append-nil}
use network_library.Prelude.Options.{>>=-eq-some, some_inj}
use network_library.Buffer.{append, readable_bytes, WriteResult}
use network_library.Channel.{is_writing}
use network_library.TcpConnection.{
  Connection, disconnected, Attempt, attempt_write, no_attempt, warn_high_water, save_rest,
  send_in_loop, shutdown, is_disconnected,
}
use network_library.TcpConnection.Stream.{
  sent, sent-keep_writing, sent-warn_high_water, attempt_wrote,
}

-- What a `write` takes.
abbrev pub count : WriteResult → ℕ
count (WriteResult.wrote n) = n
count (WriteResult.failed errno) = 0

-- What the kernel takes of a send at once: nothing where the connection is writing, or has bytes that wait.
abbrev pub at_once : WriteResult → Connection → ℕ
at_once answer c =
    if not (is_writing c.channel) && (readable_bytes c.output == 0) then count answer else 0

save_rest-sent :
    (bytes : List ℕ) (a : Attempt) (c' : Connection)
    → save_rest bytes a ≡ some c'
    → sent c'.log ≡ sent a.conn.log
unfolding save_rest
save_rest-sent bytes a c' e = elim (Bool-cases (not a.fault_error && ltb 0 a.remaining)) [
  | inr kept ↦ ap (λ k. sent k.log) (sym (some_inj (rw kept at e)))
  | inl rest ↦
      let (out, got, done) =
        >>=-eq-some (append (drop a.nwrote bytes) a.conn.output) _ (rw rest at e) in
      let warned = record (warn_high_water a.remaining a.conn) { output = out } in
      ap (λ k. sent k.log) (sym (some_inj done))
      ∙ (sent-keep_writing warned).0
      ∙ sent-warn_high_water a.remaining a.conn
]

attempt-sent :
    (answer : WriteResult) (bytes : List ℕ) (c : Connection)
    → sent (attempt_write answer bytes c).conn.log ≡ sent c.log ++ take (count answer) bytes
attempt-sent (WriteResult.wrote n) bytes c = (attempt_wrote n bytes c).1
attempt-sent (WriteResult.failed errno) bytes c =
    unfold attempt_write in sym (append-nil (sent c.log))

pub send_in_loop-sent :
    (answer : WriteResult) (bytes : List ℕ) (c c' : Connection)
    → c.state ≢ disconnected
    → send_in_loop answer bytes c ≡ some c'
    → sent c'.log ≡ sent c.log ++ take (at_once answer c) bytes
unfolding send_in_loop
send_in_loop-sent answer bytes c c' up e =
    elim (Bool-cases (not (is_writing c.channel) && (readable_bytes c.output == 0))) [
      | inl idle ↦ rw idle (
          save_rest-sent bytes (attempt_write answer bytes c) c' (rw (alive, idle) at e)
          ∙ attempt-sent answer bytes c)
      | inr busy ↦ rw busy (
          save_rest-sent bytes (no_attempt bytes c) c' (rw (alive, busy) at e)
          ∙ (unfold no_attempt in sym (append-nil (sent c.log))))
    ]
  where
    alive : is_disconnected c.state ≡ false
    alive = ground arith

pub shutdown-sent : (c : Connection) → sent (shutdown c).log ≡ sent c.log
unfolding shutdown sent
shutdown-sent c = ground arith
