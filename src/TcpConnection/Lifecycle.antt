-- ===== src/TcpConnection/Lifecycle.antt =====
-- The states of a connection, connecting, connected, disconnecting and disconnected, come in that
-- order, and writing is shut down only in the last two.
use network_library.Prelude.{
  ℕ, ◌≤◌, ◌≡◌, refl, subst, Bool, true, false, ◌&&◌, not, ltb, drop, ◌∙◌, List, [], ◌∷◌, some,
  arith, ◌==◌, Bool-cases, inl, inr,
}
use network_library.Prelude.Options.{>>=-eq-some, some_inj}
use network_library.Buffer
use network_library.Channel.{is_writing}
use network_library.Buffer.{readable_bytes, WriteResult, ReadResult}
use network_library.TcpConnection.{
  Connection, State, disconnected, connecting, connected, disconnecting, Effect, shuts_write,
  queues, shutdown_task, send, send_in_loop, save_rest, Attempt, attempt_write, no_attempt,
  keep_writing, warn_high_water, shutdown, shutdown_in_loop, connect_established, connect_destroyed,
  handle_read, after_read, handle_write, written, advance_output, consume_output, finish_write,
  handle_close, handle_error, is_disconnected, is_connected,
}
use network_library.TcpConnection.Events.{
  Event, sends, sends_in_loop, reads, writes, shuts, shuts_in_loop, closes, establishes, destroys,
  step,
}

abbrev pub rank : State → ℕ
rank connecting = 0
rank connected = 1
rank disconnecting = 2
rank disconnected = 3

-- Whether `shutdownWrite` was called, and whether `shutdownInLoop` was handed to the loop.
unfoldable pub has_shut : List Effect → Bool
has_shut [] = false
has_shut (shuts_write ∷ log) = true
has_shut (_ ∷ log) = has_shut log

unfoldable pub has_asked : List Effect → Bool
has_asked [] = false
has_asked (queues shutdown_task ∷ log) = true
has_asked (_ ∷ log) = has_asked log

-- When the server and the loop make a call: a connection is established once, and `shutdownInLoop`
-- runs only after it was queued (or from `handleWrite`).
abbrev pub IsAllowed : Event → Connection → Type 0
IsAllowed establishes c = c.state ≡ connecting
IsAllowed shuts_in_loop c = has_asked c.log ≡ true
IsAllowed _ c = Unit

pub data Reach (c : Connection) : Connection → Type 0 where
  here : Reach c c
  next :
      (e : Event) {d : Connection} (d' : Connection)
      → Reach c d
      → IsAllowed e d
      → step e d ≡ some d'
      → Reach c d'

-- Both are for the last two states.
pub record IsOrderly (c : Connection) : Type 0 where
  pub shut : has_shut c.log ≡ true → 2 ≤ rank c.state
  pub asked : has_asked c.log ≡ true → 2 ≤ rank c.state

-- A step does not go back in the order, and keeps it.
record Advances (c c' : Connection) : Type 0 where
  onward : rank c.state ≤ rank c'.state
  orderly : IsOrderly c'

-- Nothing that the order depends on has changed.
record Same (c c' : Connection) : Type 0 where
  state : c'.state ≡ c.state
  shut : has_shut c'.log ≡ has_shut c.log
  asked : has_asked c'.log ≡ has_asked c.log

Same-Advances : {c c' : Connection} → IsOrderly c → Same c c' → Advances c c'
Same-Advances o s = ground arith

Same-refl : (c : Connection) → Same c c
Same-refl c = record { state = refl; shut = refl; asked = refl }

keep-Same :
    (n : ℕ) (c : Connection) (out : Buffer.Buffer)
    → Same c (keep_writing (record (warn_high_water n c) { output = out }))
unfolding keep_writing warn_high_water has_shut has_asked
keep-Same n c out = ground arith

attempt-Same :
    (answer : WriteResult) (bytes : List ℕ) (c : Connection)
    → Same c (attempt_write answer bytes c).conn
unfolding attempt_write has_shut has_asked
attempt-Same (WriteResult.wrote n) bytes c = ground arith
attempt-Same (WriteResult.failed errno) bytes c = Same-refl c

save_rest-Same :
    (bytes : List ℕ) (a : Attempt) (c c' : Connection)
    → Same c a.conn
    → save_rest bytes a ≡ some c'
    → Same c c'
unfolding save_rest
save_rest-Same bytes a c c' k e = elim (Bool-cases (not a.fault_error && ltb 0 a.remaining)) [
  | inr kept ↦ subst (Same c) (some_inj (rw kept at e)) k
  | inl rest ↦
      let (out, got, done) =
        >>=-eq-some (Buffer.append (drop a.nwrote bytes) a.conn.output) _ (rw rest at e) in
      let t = keep-Same a.remaining a.conn out in
      subst (Same c) (some_inj done)
        (record { state = t.state ∙ k.state; shut = t.shut ∙ k.shut; asked = t.asked ∙ k.asked })
]

send_in_loop-Same :
    (answer : WriteResult) (bytes : List ℕ) (c c' : Connection)
    → send_in_loop answer bytes c ≡ some c'
    → Same c c'
unfolding send_in_loop
send_in_loop-Same answer bytes c c' e = elim (Bool-cases (is_disconnected c.state)) [
  | inl down ↦ subst (Same c) (some_inj (rw down at e)) (Same-refl c)
  | inr up ↦ elim (Bool-cases (not (is_writing c.channel) && readable_bytes c.output == 0)) [
    | inl idle ↦ save_rest-Same bytes _ c c' (attempt-Same answer bytes c) (rw (up, idle) at e)
    | inr busy ↦
        save_rest-Same bytes (no_attempt bytes c) c c' (unfold no_attempt in Same-refl c)
          (rw (up, busy) at e)
  ]
]

after_read-Advances :
    (time : ℕ) (r : ReadResult) (c d : Connection)
    → IsOrderly c
    → Same c d
    → Advances c (after_read time r d)
unfolding after_read handle_close handle_error has_shut has_asked
after_read-Advances time (ReadResult.failed errno) c d o s = Same-Advances o s
after_read-Advances time (ReadResult.received []) c d o s = ground arith
after_read-Advances time (ReadResult.received (x ∷ xs)) c d o s = ground arith

finish-Advances : (c d : Connection) → IsOrderly c → Same c d → Advances c (finish_write d)
unfolding finish_write shutdown_in_loop has_shut has_asked
finish-Advances c d o s = ground arith

written-Advances :
    (answer : WriteResult) (c : Connection) → IsOrderly c → Advances c (written answer c)
unfolding written advance_output
written-Advances (WriteResult.wrote n) c o =
    let s : Same c (consume_output n c) =
      unfold consume_output has_shut has_asked in
      record { state = refl; shut = refl; asked = refl } in
    ground (
      arith,
      Same-Advances o s,
      Same-Advances o (Same-refl c),
      finish-Advances c (consume_output n c) o s,
    )
written-Advances (WriteResult.failed errno) c o = Same-Advances o (Same-refl c)

step-Advances :
    (e : Event) (c c' : Connection)
    → IsOrderly c
    → IsAllowed e c
    → step e c ≡ some c'
    → Advances c c'
unfolding step send handle_read handle_write shutdown shutdown_in_loop handle_close
    connect_established connect_destroyed has_shut has_asked
step-Advances (sends true answer bytes) c c' o h e = elim (Bool-cases (is_connected c.state)) [
  | inl up ↦ Same-Advances o (send_in_loop-Same answer bytes c c' (rw (up, send) at e))
  | inr down ↦ ground arith
]
step-Advances (sends false answer bytes) c c' o h e = ground arith
step-Advances (sends_in_loop answer bytes) c c' o h e =
    Same-Advances o (send_in_loop-Same answer bytes c c' e)
step-Advances (reads time readv) c c' o h e =
    let (r, got, done) = >>=-eq-some (Buffer.read_fd readv c.input) _ e in
    subst (Advances c) (some_inj done)
      (after_read-Advances time r.0 c _ o (record { state = refl; shut = refl; asked = refl }))
step-Advances (writes write) c c' o h e =
    ground
      (arith, written-Advances (Buffer.writ_fd write c.output) c o, Same-Advances o (Same-refl c))
step-Advances shuts c c' o h e = ground arith
step-Advances shuts_in_loop c c' o h e = ground arith
step-Advances closes c c' o h e = ground arith
step-Advances establishes c c' o h e = ground arith
step-Advances destroys c c' o h e = ground arith

-- In every history of a connection that is established once, the state never goes back in the order
-- connecting, connected, disconnecting, disconnected; and once the shutdown was asked for, or the
-- writing side shut, the connection is disconnecting or disconnected.
pub Reach-IsOrderly :
    (c d : Connection) → IsOrderly c → Reach c d → IsOrderly d × (rank c.state ≤ rank d.state)
Reach-IsOrderly c d o here = (o, omega arith)
Reach-IsOrderly c d o (next e {d = b} d' r h s) =
    let (p, q) = Reach-IsOrderly c b o r in
    let k = step-Advances e b d p h s in (k.orderly, omega (arith, k.onward))
