-- ===== src/Timers.antt =====
-- src/timer/Timer.h, Timer.cc, TimerQueue.cc and src/base/Timestamp.h: the queue of timers of an event loop.
--
-- A `Timestamp` is its `int64_t`, for times from 0 on whose sums stay below 2 ^ 63, past which C++ says nothing.
-- `time` is outside: `clock` has the answers of its calls, in order. A callback is the list of timers that it adds.
pub mod Order
pub mod Expiry
pub mod Arming
pub mod Owned
pub mod Life
mod Tests
use network_library.Prelude.{
  ℕ, suc, ◌+◌, ◌-◌, ◌*◌, ◌/◌, ◌%◌, ◌^◌, Bool, true, false, ◌&&◌, ◌||◌, List, [], ◌∷◌, Option, none,
  some, ltb, ◌==◌, if◌then◌else◌,
}

-- `id` is the address. `interval` is what `addTime` makes of the seconds, and `repeat` whether there are any.
pub record Timer : Type 0 where
  pub id : ℕ
  pub expiration : ℕ
  pub interval : ℕ
  pub repeat : Bool

-- `Entry`
pub record Entry : Type 0 where
  pub time : ℕ
  pub timer : Timer

-- `struct timespec`
pub record Timespec : Type 0 where
  pub tv_sec : ℕ
  pub tv_nsec : ℕ

-- The queue, with the timerfd's setting, the timers that ran and those that were deleted, newest first.
pub record TimerQueue : Type 0 where
  pub timers : List Entry
  pub calling_expired_timers : Bool
  pub armed : Option Timespec
  pub ran : List ℕ
  pub deleted : List ℕ
  pub ticks : ℕ

-- The constructor.
abbrev pub new_queue : TimerQueue
new_queue = record {
  timers = [];
  calling_expired_timers = false;
  armed = none;
  ran = [];
  deleted = [];
  ticks = 0;
}

-- The order of `std::pair<Timestamp, Timer*>`.
abbrev pub before : Entry → Entry → Bool
before a b = ltb a.time b.time || (a.time == b.time && ltb a.timer.id b.timer.id)

-- `std::set::insert`
unfoldable pub set_insert : Entry → List Entry → List Entry
set_insert e [] = e ∷ []
set_insert e (x ∷ xs) =
    let later = set_insert e xs in
    if before e x then e ∷ x ∷ xs else if before x e then x ∷ later else x ∷ xs

abbrev pub micro_seconds_per_second : ℕ
micro_seconds_per_second = 1000 * 1000

abbrev pub add_time : ℕ → ℕ → ℕ
add_time timestamp delta = timestamp + delta

-- `new Timer`, at the address `id`. `repeat` is whether the seconds are more than 0.
abbrev pub new_timer : ℕ → ℕ → ℕ → Bool → Timer
new_timer id when interval repeat = record {
  id = id;
  expiration = when;
  interval = interval;
  repeat = repeat;
}

-- `restart`
pub restart : ℕ → Timer → Timer
restart now t = record t { expiration = if t.repeat then add_time now t.interval else 0 }

abbrev pub at_least : ℕ → ℕ → ℕ
at_least least n = if ltb n least then least else n

-- The difference is negative for a time that is past, which is then raised to 100 as 0 is.
abbrev pub timespec : ℕ → Timespec
timespec micros = record {
  tv_sec = micros / micro_seconds_per_second;
  tv_nsec = micros % micro_seconds_per_second * 1000;
}

-- `begin() == end() || when < begin()->first`
abbrev pub is_earliest : ℕ → List Entry → Bool
is_earliest time [] = true
is_earliest time (x ∷ xs) = ltb time x.time

-- `insert`
unfoldable pub insert : Timer → TimerQueue → Bool × TimerQueue
insert t q = (
  is_earliest t.expiration q.timers,
  record q { timers = set_insert (record { time = t.expiration; timer = t }) q.timers },
)

-- `lower_bound` of the sentry, and the erasure of what is before it.
unfoldable pub split_before : Entry → List Entry → List Entry × List Entry
split_before sentry [] = ([], [])
split_before sentry (x ∷ xs) =
    let (front, back) = split_before sentry xs in
    if before x sentry then (x ∷ front, back) else ([], x ∷ xs)

abbrev pub uintptr_max : ℕ
uintptr_max = 2 ^ 64 - 1

abbrev pub sentry : ℕ → Entry
sentry now = record {
  time = now;
  timer = record { id = uintptr_max; expiration = 0; interval = 0; repeat = false };
}

-- `getExpired`
unfoldable pub get_expired : ℕ → TimerQueue → List Entry × TimerQueue
get_expired now q =
    let (expired, rest) = split_before (sentry now) q.timers in
    (expired, record q { timers = rest })

module _ (clock : ℕ → ℕ) where
  -- `Timestamp::now`
  abbrev pub read_clock : TimerQueue → ℕ × TimerQueue
  read_clock q = (clock q.ticks, record q { ticks = suc q.ticks })

  -- `resetTimerfd`, whose `timerfd_settime` succeeds.
  unfoldable pub reset_timerfd : ℕ → TimerQueue → TimerQueue
  reset_timerfd expiration q =
      let (now, q') = read_clock q in
      record q' { armed = some (timespec (at_least 100 (expiration - now))) }

  unfoldable pub add_timer_in_loop : Timer → TimerQueue → TimerQueue
  add_timer_in_loop t q =
      let (earliest_changed, q') = insert t q in
      if earliest_changed then reset_timerfd t.expiration q' else q'

  unfoldable pub add_all : List Timer → TimerQueue → TimerQueue
  add_all [] q = q
  add_all (t ∷ ts) q = add_all ts (add_timer_in_loop t q)

  -- The round of `reset` for one timer, up to the test of the queue.
  unfoldable pub recycle : Timer → TimerQueue → TimerQueue
  recycle t q =
      let (now, q') = read_clock q in
      if t.repeat then (insert (restart now t) q').1 else record q { deleted = t.id ∷ q.deleted }

  -- Its end.
  unfoldable pub rearm : TimerQueue → TimerQueue
  rearm q = elim q.timers [ [] ↦ q | x ∷ _ ↦ reset_timerfd x.timer.expiration q ]

  unfoldable pub reset : List Entry → TimerQueue → TimerQueue
  reset [] q = q
  reset (e ∷ es) q = reset es (rearm (recycle e.timer q))

  module _ (callback : Timer → List Timer) where
    -- `run` of every expired timer.
    unfoldable pub run_all : List Entry → TimerQueue → TimerQueue
    run_all [] q = q
    run_all (e ∷ es) q =
        run_all es (add_all (callback e.timer) (record q { ran = e.timer.id ∷ q.ran }))

    -- `handleRead`, when the timerfd has gone off, which disarms it.
    unfoldable pub handle_read : TimerQueue → TimerQueue
    handle_read q =
        let (now, q1) = read_clock q in
        let (expired, q2) = get_expired now (record q1 { armed = none }) in
        let q3 = run_all expired (record q2 { calling_expired_timers = true }) in
        reset expired (record q3 { calling_expired_timers = false })

  -- `addTimer` in the thread of the loop, where `runInLoop` calls `addTimerInLoop` at once.
  unfoldable pub add_timer : ℕ → ℕ → ℕ → Bool → TimerQueue → TimerQueue
  add_timer id when interval repeat q = add_timer_in_loop (new_timer id when interval repeat) q

  -- `EventLoop::runAt`, `runAfter` and `runEvery`
  unfoldable pub run_at : ℕ → ℕ → TimerQueue → TimerQueue
  run_at id timestamp q = add_timer id timestamp 0 false q

  unfoldable pub run_after : ℕ → ℕ → TimerQueue → TimerQueue
  run_after id wait_time q = let (now, q') = read_clock q in run_at id (add_time now wait_time) q'

  unfoldable pub run_every : ℕ → ℕ → Bool → TimerQueue → TimerQueue
  run_every id interval repeat q =
      let (now, q') = read_clock q in add_timer id (add_time now interval) interval repeat q'

-- The destructor.
unfoldable pub delete_all : List Entry → TimerQueue → TimerQueue
delete_all [] q = q
delete_all (e ∷ es) q = delete_all es (record q { deleted = e.timer.id ∷ q.deleted })

unfoldable pub destroy_queue : TimerQueue → TimerQueue
destroy_queue q = record (delete_all q.timers q) { timers = []; armed = none }
