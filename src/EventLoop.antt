-- ===== src/EventLoop.antt =====
-- src/net/EventLoop.h and src/net/EventLoop.cc: the queue of functors of a loop, and its wakeup.
--
-- A functor is its number. A thread is what `CurrentThread::tid` says in it. The eventfd is its counter, which a read
-- sets back to 0. The poll and the handlers of channels other than the eventfd's are in the steps of Steps.
pub mod Steps
pub mod Wakeup
pub mod Quit
mod Tests
use network_library.Prelude.{
  ℕ, ◌+◌, Bool, true, false, not, ◌||◌, List, [], ◌∷◌, ◌++◌, ◌==◌, if◌then◌else◌,
}

pub record EventLoop : Type 0 where
  pub thread_id : ℕ
  pub looping : Bool
  pub quit : Bool
  pub calling_pending_functors : Bool
  pub pending_functors : List ℕ
  pub functors : List ℕ
  pub wakeup_fd : ℕ
  pub ran : List ℕ

-- The constructor, in the thread of the loop.
abbrev pub new_loop : ℕ → EventLoop
new_loop tid = record {
  thread_id = tid;
  looping = false;
  quit = false;
  calling_pending_functors = false;
  pending_functors = [];
  functors = [];
  wakeup_fd = 0;
  ran = [];
}

abbrev pub is_in_loop_thread : ℕ → EventLoop → Bool
is_in_loop_thread tid l = l.thread_id == tid

abbrev pub wakeup : EventLoop → EventLoop
wakeup l = record l { wakeup_fd = l.wakeup_fd + 1 }

-- `handleRead`
abbrev pub read_wakeup : EventLoop → EventLoop
read_wakeup l = record l { wakeup_fd = 0 }

-- `loop`, up to its first test of `quit_`.
abbrev pub begin_loop : EventLoop → EventLoop
begin_loop l = record l { looping = true; quit = false }

-- `loop`, behind its `while`.
abbrev pub end_loop : EventLoop → EventLoop
end_loop l = record l { looping = false }

-- The assignment in `quit`, and what follows it.
abbrev pub request_quit : EventLoop → EventLoop
request_quit l = record l { quit = true }

unfoldable pub announce_quit : ℕ → EventLoop → EventLoop
announce_quit tid l = if is_in_loop_thread tid l then l else wakeup l

-- The locked part of `queueInLoop`.
abbrev pub emplace : ℕ → EventLoop → EventLoop
emplace f l = record l { pending_functors = l.pending_functors ++ f ∷ [] }

-- The rest of it.
unfoldable pub announce : ℕ → EventLoop → EventLoop
announce tid l = if not (is_in_loop_thread tid l) || l.calling_pending_functors then wakeup l else l

unfoldable pub queue_in_loop : ℕ → ℕ → EventLoop → EventLoop
queue_in_loop tid f l = announce tid (emplace f l)

-- `runInLoop`, whose functor runs at once in the thread of the loop.
pub run_in_loop : ℕ → ℕ → EventLoop → EventLoop
run_in_loop tid f l =
    if is_in_loop_thread tid l then record l { ran = l.ran ++ f ∷ [] } else queue_in_loop tid f l

-- `doPendingFunctors`, up to the end of the locked part.
unfoldable pub take_functors : EventLoop → EventLoop
take_functors l = record l {
  calling_pending_functors = true;
  functors = l.pending_functors;
  pending_functors = [];
}

-- The call of the first functor that is left.
abbrev pub call_functor : ℕ → List ℕ → EventLoop → EventLoop
call_functor f rest l = record l { functors = rest; ran = l.ran ++ f ∷ [] }

-- Its end.
unfoldable pub finish_functors : EventLoop → EventLoop
finish_functors l = record l { calling_pending_functors = false }
