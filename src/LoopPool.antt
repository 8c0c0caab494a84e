-- ===== src/LoopPool.antt =====
-- src/net/EventLoopThreadPool.h and src/net/EventLoopThreadPool.cc: the loops of a server, handed out in turn.
--
-- A loop is its number. `startLoop` is outside: `start_loop` names the loop of the thread that is started i-th.
pub mod Turns
mod Tests
use network_library.Prelude.{
  ℕ, zero, suc, ◌+◌, Bool, true, false, List, [], ◌∷◌, ◌++◌, length, get_or, leb, if◌then◌else◌,
  Option, none, some, ◌==◌, ◌&&◌,
}

pub record Pool : Type 0 where
  pub base_loop : ℕ
  pub started : Bool
  pub num_threads : ℕ
  pub next : ℕ
  pub loops : List ℕ

-- The constructor.
abbrev pub new_pool : ℕ → Pool
new_pool base_loop = record {
  base_loop = base_loop;
  started = false;
  num_threads = 0;
  next = 0;
  loops = [];
}

-- `setThreadNum`, which assigns `numThreads_` to itself.
unfoldable pub set_thread_num : ℕ → Pool → Pool
set_thread_num n p = record p { num_threads = p.num_threads }

-- The loops that `start` pushes, from the i-th on.
unfoldable pub started_loops : (ℕ → ℕ) → ℕ → ℕ → List ℕ
started_loops start_loop i zero = []
started_loops start_loop i (suc n) = start_loop i ∷ started_loops start_loop (suc i) n

-- `start`, whose callback of a new thread is the thread's own.
unfoldable pub start : (ℕ → ℕ) → Pool → Pool
start start_loop p = record p {
  started = true;
  loops = p.loops ++ started_loops start_loop 0 p.num_threads;
}

-- `getNextLoop`
unfoldable pub get_next_loop : Pool → ℕ × Pool
get_next_loop p = elim p.loops [
  | [] ↦ (p.base_loop, p)
  | _ ∷ _ ↦
      let after = p.next + 1 in
      (get_or p.loops p.next 0, record p { next = if leb (length p.loops) after then 0 else after })
]

-- The loops on which `start` itself calls its callback, if it is given one.
unfoldable pub called_back : Bool → Pool → List ℕ
called_back has_cb p = if p.num_threads == 0 && has_cb then p.base_loop ∷ [] else []

-- `getAllLoops`; `none` where it ends without a return.
unfoldable pub get_all_loops : Pool → Option (List ℕ)
get_all_loops p = elim p.loops [ [] ↦ some (p.base_loop ∷ []) | _ ∷ _ ↦ none ]
