-- ===== src/LoopThread.antt =====
-- src/net/EventLoopThread.h and src/net/EventLoopThread.cc: a thread that makes a loop, and the one that waits for it.
--
-- What stands under the mutex is one step, and so is a wait with the release of the mutex. A wait may end without a
-- notification, as that of a std::condition_variable may. A loop is its address. Whether
-- the Thread object still holds `threadFunc` is an argument of the steps, since the constructor of Thread moves its
-- function from itself: where it does not, the call of an empty function ends the process.
pub mod HandOver
mod Tests
use network_library.Prelude.{ℕ, ◌≡◌, Bool, true, false, Option, none, some}

-- Where the owner is: `startLoop` not yet called, about to test `loop_`, in `cond_.wait`, or back with a loop; in the
-- join of the destructor, or behind it.
pub data Caller : Type 0 where
  idle testing blocked joining gone : Caller
  has_loop : ℕ → Caller

-- Where the thread is: not yet started, about to call its function; in the process that the call of an empty function
-- has ended; and in `threadFunc`: in the callback, about to set `loop_`, in the loop, about to clear `loop_`, about to
-- unlock the mutex behind that, about to destroy its loop, or at its end.
pub data Worker : Type 0 where
  unborn starting terminated calling_back publishing looping clearing unlocking leaving ended :
      Worker

pub record World : Type 0 where
  pub loop : Option ℕ
  pub caller : Caller
  pub worker : Worker

-- The constructor.
abbrev pub new_world : World
new_world = record { loop = none; caller = idle; worker = unborn }

-- `cond_.notify_one()`
abbrev pub notified : Caller → Caller
notified blocked = testing
notified c = c

-- One test of the `while` of `startLoop`.
abbrev pub tested : Option ℕ → Caller
tested none = blocked
tested (some loop) = has_loop loop

-- `func_()` of the thread: the call of `threadFunc` where the Thread object holds it.
abbrev pub begun : Bool → Worker
begun true = calling_back
begun false = terminated

-- Another thread can take the mutex.
abbrev pub can_lock : Worker → Bool
can_lock unlocking = false
can_lock terminated = false
can_lock t = true

-- The destructor up to the join: `quit` and `join` where `loop_` is set.
abbrev pub destroyed : Option ℕ → Caller
destroyed none = gone
destroyed (some loop) = joining

-- The steps, in a thread whose loop stands at `own`, and whose Thread object `keeps` its function.
pub data Step (keeps : Bool) (own : ℕ) : World → World → Type 0 where
  starts :
      (l : Option ℕ)
      → Step keeps own
          (record { loop = l; caller = idle; worker = unborn })
          (record { loop = l; caller = testing; worker = starting })
  begins :
      (l : Option ℕ) (c : Caller)
      → Step keeps own
          (record { loop = l; caller = c; worker = starting })
          (record { loop = l; caller = c; worker = begun keeps })
  tests :
      (l : Option ℕ) (t : Worker)
      → can_lock t ≡ true
      → Step keeps own
          (record { loop = l; caller = testing; worker = t })
          (record { loop = l; caller = tested l; worker = t })
  wakes :
      (l : Option ℕ) (t : Worker)
      → can_lock t ≡ true
      → Step keeps own
          (record { loop = l; caller = blocked; worker = t })
          (record { loop = l; caller = testing; worker = t })
  calls_back :
      (l : Option ℕ) (c : Caller)
      → Step keeps own
          (record { loop = l; caller = c; worker = calling_back })
          (record { loop = l; caller = c; worker = publishing })
  publishes :
      (l : Option ℕ) (c : Caller)
      → Step keeps own
          (record { loop = l; caller = c; worker = publishing })
          (record { loop = some own; caller = notified c; worker = looping })
  leaves :
      (l : Option ℕ) (c : Caller)
      → Step keeps own
          (record { loop = l; caller = c; worker = looping })
          (record { loop = l; caller = c; worker = clearing })
  clears :
      (l : Option ℕ) (c : Caller)
      → Step keeps own
          (record { loop = l; caller = c; worker = clearing })
          (record { loop = none; caller = c; worker = unlocking })
  unlocks :
      (l : Option ℕ) (c : Caller)
      → Step keeps own
          (record { loop = l; caller = c; worker = unlocking })
          (record { loop = l; caller = c; worker = leaving })
  destroys_loop :
      (l : Option ℕ) (c : Caller)
      → Step keeps own
          (record { loop = l; caller = c; worker = leaving })
          (record { loop = l; caller = c; worker = ended })
  destroys_idle :
      (l : Option ℕ)
      → Step keeps own
          (record { loop = l; caller = idle; worker = unborn })
          (record { loop = l; caller = destroyed l; worker = unborn })
  destroys :
      (l : Option ℕ) (loop : ℕ) (t : Worker)
      → Step keeps own
          (record { loop = l; caller = has_loop loop; worker = t })
          (record { loop = l; caller = destroyed l; worker = t })
  joins :
      (l : Option ℕ)
      → Step keeps own
          (record { loop = l; caller = joining; worker = ended })
          (record { loop = l; caller = gone; worker = ended })

pub data Reach (keeps : Bool) (own : ℕ) (w : World) : World → Type 0 where
  here : Reach keeps own w w
  then : {v x : World} → Reach keeps own w v → Step keeps own v x → Reach keeps own w x
