-- ===== src/Timers/Life.antt =====
-- src/timer/TimerQueue.cc and src/net/EventLoop.h: the timers of a queue, from its constructor to its destructor.
use network_library.Prelude.{
  ℕ, suc, ◌+◌, ◌≡◌, refl, sym, ap, subst, Bool, false, List, [], ◌∷◌, ◌++◌, arith,
}
use mathlib.Core.List.{append_assoc, append-nil}
use network_library.Timers.{
  Timer, Entry, TimerQueue, new_queue, get_expired, new_timer, add_timer, run_at, run_after,
  run_every, handle_read, delete_all, destroy_queue, add_time,
}
use network_library.Timers.Owned.{
  count, ids, AtMostOnce, Owns, count-append, count-cons, added_by, add_timer_in_loop-Owns,
  handle_read-Owns,
}

-- What happens to a queue in the thread of its loop: a call with the address of its new timer, or the timerfd goes off.
pub data Event : Type 0 where
  runs_at runs_after : ℕ → ℕ → Event
  runs_every : ℕ → ℕ → Bool → Event
  fires : Event

module _ (clock : ℕ → ℕ) (callback : Timer → List Timer) where
  unfoldable pub step : Event → TimerQueue → TimerQueue
  step (runs_at id timestamp) q = run_at clock id timestamp q
  step (runs_after id wait_time) q = run_after clock id wait_time q
  step (runs_every id interval repeat) q = run_every clock id interval repeat q
  step fires q = handle_read clock callback q

  -- The timers that an event makes.
  unfoldable pub makes : Event → TimerQueue → List ℕ
  makes (runs_at id timestamp) q = id ∷ []
  makes (runs_after id wait_time) q = id ∷ []
  makes (runs_every id interval repeat) q = id ∷ []
  makes fires q = added_by clock callback (get_expired (clock q.ticks) q).0

  -- The queue after some events, and the timers that were made.
  unfoldable pub run : List Event → TimerQueue → TimerQueue
  run [] q = q
  run (e ∷ es) q = run es (step e q)

  unfoldable pub makes_all : List Event → TimerQueue → List ℕ
  makes_all [] q = []
  makes_all (e ∷ es) q = makes e q ++ makes_all es (step e q)

  step-Owns :
      (e : Event) (q : TimerQueue) (made : List ℕ)
      → Owns made [] q
      → AtMostOnce (made ++ makes e q)
      → Owns (made ++ makes e q) [] (step e q)
  unfolding step makes run_at run_after run_every add_timer
  step-Owns (runs_at id timestamp) q made o once =
      add_timer_in_loop-Owns clock (new_timer id timestamp 0 false) q made [] o once
  step-Owns (runs_after id wait_time) q made o once =
      add_timer_in_loop-Owns clock (new_timer id (add_time (clock q.ticks) wait_time) 0 false)
        (record q { ticks = suc q.ticks }) made [] o once
  step-Owns (runs_every id interval repeat) q made o once =
      add_timer_in_loop-Owns clock
        (new_timer id (add_time (clock q.ticks) interval) interval repeat)
        (record q { ticks = suc q.ticks }) made [] o once
  step-Owns fires q made o once = handle_read-Owns clock callback q made o once

  run-Owns :
      (es : List Event) (q : TimerQueue) (made : List ℕ)
      → Owns made [] q
      → AtMostOnce (made ++ makes_all es q)
      → Owns (made ++ makes_all es q) [] (run es q)
  unfolding run makes_all
  run-Owns [] q made o once = subst (λ m. Owns m [] q) (sym (append-nil made)) o
  run-Owns (e ∷ es) q made o once =
      let rest = makes_all es (step e q) in
      let regroup = append_assoc made (makes e q) rest in
      subst (λ m. Owns m [] (run es (step e q))) regroup
        (run-Owns es (step e q) (made ++ makes e q)
          (step-Owns e q made o (λ i.
            omega (arith, once i, ap (count i) regroup, count-append i (made ++ makes e q) rest)))
          (subst AtMostOnce (sym regroup) once))

  count-delete_all :
      (i : ℕ) (es : List Entry) (q : TimerQueue)
      → count i (delete_all es q).deleted ≡ count i (ids es) + count i q.deleted
  unfolding delete_all
  count-delete_all i [] q = omega arith
  count-delete_all i (e ∷ es) q = omega (
    arith,
    count-delete_all i es (record q { deleted = e.timer.id ∷ q.deleted }),
    count-cons i e.timer.id (ids es),
    count-cons i e.timer.id q.deleted,
  )

  -- From the constructor of a queue to its destructor, whatever timers are added and however often the timerfd goes
  -- off, every timer that was made, by a call or by a callback, is deleted exactly once, where each has an address of
  -- its own.
  pub destroy_queue-run :
      (es : List Event)
      → AtMostOnce (makes_all es new_queue)
      → (i : ℕ)
      → count i (destroy_queue (run es new_queue)).deleted ≡ count i (makes_all es new_queue)
  unfolding destroy_queue
  destroy_queue-run es once i =
      let q = run es new_queue in
      omega (arith, run-Owns es new_queue [] (λ j. refl) once i, count-delete_all i q.timers q)
