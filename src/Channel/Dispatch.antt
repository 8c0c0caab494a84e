-- ===== src/Channel/Dispatch.antt =====
-- Which callbacks an event reaches, and in what order.
use network_library.Prelude.{ℕ, true, false, List, [], ◌∷◌, ◌≡◌, ◌<◌, ◌↔◌, ◌⊎◌, arith}
use network_library.Channel.{
  Channel, Call, close_call, error_call, write_call, read_call, handle_event,
  handle_event_with_guard,
}

-- Whether a call is among those made.
abbrev pub Makes : Call → List Call → Type 0
Makes c [] = ⊥
Makes c (d ∷ ds) = (c ≡ d) ⊎ Makes c ds

-- The channel may run its callbacks: it is tied to nothing, or to an owner that is still alive.
abbrev pub Guarded : Channel → Type 0
Guarded c = (c.tied ≡ false) ⊎ (c.owner_alive ≡ true)

-- What must hold for a call to be made.
abbrev pub Due : ℕ → Channel → Call → Type 0
Due time c close_call =
    (c.revents.epollhup ≡ true) × (c.revents.epollin ≡ false) × (c.has_close ≡ true)
Due time c error_call = (c.revents.epollerr ≡ true) × (c.has_error ≡ true)
Due time c write_call = (c.revents.epollout ≡ true) × (c.has_write ≡ true)
Due time c (read_call t) =
    ((c.revents.epollin ≡ true) ⊎ (c.revents.epollpri ≡ true)) × (c.has_read ≡ true) × (t ≡ time)

-- A callback is called on an event exactly when it is set, the event's bits ask for it (a hang-up
-- counts as a close only with nothing left to read), and a tied owner is still alive.
pub handle_event-Makes :
    (time : ℕ) (c : Channel) (call : Call)
    → Makes call (handle_event time c) ↔ (Guarded c × Due time c call)
unfolding handle_event handle_event_with_guard
handle_event-Makes time c close_call = ground arith
handle_event-Makes time c error_call = ground arith
handle_event-Makes time c write_call = ground arith
handle_event-Makes time c (read_call t) = ground arith

-- close, error, read, write
abbrev pub rank : Call → ℕ
rank close_call = 0
rank error_call = 1
rank (read_call t) = 2
rank write_call = 3

abbrev pub Ascends : List Call → Type 0
Ascends [] = Unit
Ascends (c ∷ []) = Unit
Ascends (c ∷ d ∷ ds) = (rank c < rank d) × Ascends (d ∷ ds)

-- Each callback is called at most once, the close callback before the error callback, that before
-- the read callback, and the write callback last.
pub handle_event-Ascends : (time : ℕ) (c : Channel) → Ascends (handle_event time c)
unfolding handle_event handle_event_with_guard
handle_event-Ascends time c = ground arith
