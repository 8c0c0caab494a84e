-- ===== src/Thread.antt =====
-- src/base/Thread.h, src/base/Thread.cc, src/base/CurrentThread.h and src/base/CurrentThread.cc: a thread object, and
-- how it starts its thread.
--
-- The steps of the thread that owns the object and of the new thread interleave. A function is a number, `none` the
-- empty std::function, whose call ends the process. The owner calls `start` once and `join` at most once. `sem_post` and
-- `sem_wait` are one step each.
pub mod Fits
pub mod Start
mod Tests
use network_library.Prelude.{
  ℕ, suc, ◌+◌, ◌-◌, ◌≡◌, Bool, true, false, not, ◌&&◌, List, [], ◌∷◌, ◌++◌, Option, none, some,
  ◌==◌, if◌then◌else◌, take, length,
}
use network_library.Http.Text.{bytes_of}
use network_library.Http.Response.{decimal}

-- `CurrentThread::cachedTid` and `CurrentThread::tid`, with the value cached before and what SYS_getpid answers: the
-- value cached afterwards, which `tid` returns.
unfoldable pub cached_tid : ℕ → ℕ → ℕ
cached_tid t_cached_tid pid = if t_cached_tid == 0 then pid else t_cached_tid

unfoldable pub tid : ℕ → ℕ → ℕ
tid t_cached_tid pid = if t_cached_tid == 0 then cached_tid t_cached_tid pid else t_cached_tid

-- What `thread_` is: null, a std::thread that can be joined, or one that was joined or detached.
pub data Handle : Type 0 where
  absent joinable released : Handle

pub record Thread : Type 0 where
  pub started : Bool
  pub joined : Bool
  pub thread : Handle
  pub tid : ℕ
  pub func : Option ℕ
  pub name : List ℕ

-- `setDefaultName`, with the value of `numCreated_` and the name before; the name after.
unfoldable pub set_default_name : ℕ → List ℕ → List ℕ
set_default_name num_created name =
    if length name == 0 then take 31 (bytes_of "Thread" ++ decimal (num_created + 1)) else name

-- The constructor, and `numCreated_` after it. `func_` is moved from itself: `moved` is what that makes of it, and the
-- function that is given is not looked at.
unfoldable pub new_thread : Option ℕ → Option ℕ → List ℕ → ℕ → Thread × ℕ
new_thread moved given name num_created = (
  record {
    started = false;
    joined = false;
    thread = absent;
    tid = 0;
    func = moved;
    name = set_default_name num_created name;
  },
  num_created + 1,
)

-- Where the owner is: before `start`, in `sem_wait`, behind `start`, in `thread_->join()`, behind `join`, or behind the
-- destructor.
pub data Owner : Type 0 where
  before waiting has_started joining has_joined destroyed : Owner

-- Where the new thread is: not there yet, about to set `tid_`, to post, or to call the function, at its end, in the
-- call of an empty function, which ends the process, or about to call a function of an object that is destroyed.
pub data Runner : Type 0 where
  unborn setting posting calling ended terminated stray : Runner

pub record World : Type 0 where
  pub object : Thread
  pub sem : ℕ
  pub owner : Owner
  pub runner : Runner
  pub ran : List ℕ

abbrev pub made : Thread → World
made t = record { object = t; sem = 0; owner = before; runner = unborn; ran = [] }

-- `start` up to `sem_wait`.
abbrev pub start : World → World
start w = record w {
  object = record w.object { started = true; thread = joinable };
  sem = 0;
  owner = waiting;
  runner = setting;
}

-- The new thread up to `sem_post`; its cached id is 0 at first.
abbrev pub set_tid : ℕ → World → World
set_tid pid w = record w { object = record w.object { tid = tid 0 pid }; runner = posting }

abbrev pub post : World → World
post w = record w { sem = w.sem + 1; runner = calling }

-- `func_()`, where the object is there.
abbrev pub call_func : Option ℕ → World → World
call_func none w = record w { runner = terminated }
call_func (some f) w = record w { ran = w.ran ++ f ∷ []; runner = ended }

abbrev pub is_destroyed : Owner → Bool
is_destroyed destroyed = true
is_destroyed _ = false

abbrev pub join : World → World
join w = record w { object = record w.object { joined = true }; owner = joining }

-- The destructor.
unfoldable pub destroy : World → World
destroy w = record w {
  object =
      if w.object.started && not w.object.joined
      then record w.object { thread = released }
      else w.object;
  owner = destroyed;
}

module _ (pid : ℕ) where
  pub data Step : World → World → Type 0 where
    starts : (w : World) → w.owner ≡ before → Step w (start w)
    sets_tid : (w : World) → w.runner ≡ setting → Step w (set_tid pid w)
    posts : (w : World) → w.runner ≡ posting → Step w (post w)
    calls :
        (w : World)
        → w.runner ≡ calling
        → is_destroyed w.owner ≡ false
        → Step w (call_func w.object.func w)
    calls_astray :
        (w : World)
        → w.runner ≡ calling
        → is_destroyed w.owner ≡ true
        → Step w (record w { runner = stray })
    wait_returns :
        (n : ℕ) (w : World)
        → w.owner ≡ waiting
        → w.sem ≡ n + 1
        → Step w (record w { sem = n; owner = has_started })
    joins : (w : World) → w.owner ≡ has_started → Step w (join w)
    join_returns :
        (w : World)
        → w.owner ≡ joining
        → w.runner ≡ ended
        → Step w (record w { object = record w.object { thread = released }; owner = has_joined })
    destroys_unstarted : (w : World) → w.owner ≡ before → Step w (destroy w)
    destroys_started : (w : World) → w.owner ≡ has_started → Step w (destroy w)
    destroys_joined : (w : World) → w.owner ≡ has_joined → Step w (destroy w)

  pub data Reach (w : World) : World → Type 0 where
    here : Reach w w
    then : {u v : World} → Reach w u → Step u v → Reach w v
