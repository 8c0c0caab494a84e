-- ===== src/Timers/Tests.antt =====
-- A queue of two timers that goes off, and the theorems at it.
use network_library.Prelude.{
  ℕ, ◌+◌, ◌≡◌, ◌↔◌, refl, Bool, true, false, List, [], ◌∷◌, ◌++◌, none, arith,
}
use network_library.Timers.{
  Timer, Entry, TimerQueue, new_queue, insert, add_timer_in_loop, get_expired, handle_read, run_at,
  run_after, add_timer, set_insert, reset_timerfd, split_before, destroy_queue,
}
use network_library.Timers.Owned.{count, AtMostOnce}
use network_library.Timers.Life.{
  Event, runs_at, runs_after, fires, step, makes, run, makes_all, destroy_queue-run,
}
use network_library.Timers.Order.{is_sorted}
use network_library.Timers.Expiry.{all_due, none_due, get_expired_lem, insert_lem}
use network_library.Timers.Arming.{
  is_some, is_armed, add_timer_in_loop-is_armed, handle_read-is_armed, handle_read-early,
}

abbrev timer : ℕ → ℕ → Bool → Timer
timer id expiration repeat = record {
  id = id;
  expiration = expiration;
  interval = 50;
  repeat = repeat;
}

abbrev entry : ℕ → ℕ → Bool → Entry
entry id expiration repeat = record { time = expiration; timer = timer id expiration repeat }

abbrev waiting : TimerQueue
waiting = record new_queue { timers = entry 7 10 true ∷ entry 8 90 false ∷ [] }

-- A clock that reads 20, 21, ...
abbrev clock : ℕ → ℕ
clock n = n + 20

-- Every callback adds one timer.
abbrev callback : Timer → List Timer
callback t = timer 9 30 false ∷ []

get_expired_lem_example :
    ((get_expired 20 waiting).0 ++ (get_expired 20 waiting).1.timers ≡ waiting.timers)
    × (all_due 20 (get_expired 20 waiting).0 ≡ true)
    × (none_due 20 (get_expired 20 waiting).1.timers ≡ true)
get_expired_lem_example = get_expired_lem 20 waiting refl refl

insert_lem_example :
    (((insert (timer 9 30 false) waiting).0 ≡ true) ↔ (none_due 30 waiting.timers ≡ true))
    × (is_sorted (insert (timer 9 30 false) waiting).1.timers ≡ true)
insert_lem_example = insert_lem (timer 9 30 false) waiting refl

handle_read-is_armed_example :
    is_armed
      (handle_read clock callback waiting).timers
      (is_some (handle_read clock callback waiting).armed)
    ≡ true
handle_read-is_armed_example =
    handle_read-is_armed clock callback waiting (entry 7 10 true) (entry 8 90 false ∷ []) refl refl
      refl

add_timer_in_loop-is_armed_example :
    is_some (add_timer_in_loop clock (timer 7 10 true) new_queue).armed ≡ true
add_timer_in_loop-is_armed_example =
    add_timer_in_loop-is_armed clock (timer 7 10 true) new_queue refl

-- Five seconds from a clock that counts seconds, the timer is due in five million of its units.
abbrev five_seconds : TimerQueue
five_seconds = record new_queue { timers = entry 7 5000020 false ∷ []; ticks = 5 }

handle_read-early_example :
    ((handle_read clock callback five_seconds).timers ≡ five_seconds.timers)
    × ((handle_read clock callback five_seconds).armed ≡ none)
handle_read-early_example = handle_read-early clock callback five_seconds refl

abbrev events : List Event
events = runs_at 5 20 ∷ runs_after 6 500 ∷ fires ∷ []

events-AtMostOnce : AtMostOnce (makes_all clock callback events new_queue)
unfolding makes_all makes step run_at run_after add_timer add_timer_in_loop insert set_insert
    reset_timerfd get_expired split_before
events-AtMostOnce i = ground arith

destroy_queue-run_example :
    count 5 (destroy_queue (run clock callback events new_queue)).deleted
    ≡ count 5 (makes_all clock callback events new_queue)
destroy_queue-run_example = destroy_queue-run clock callback events events-AtMostOnce 5
