-- ===== src/Timers/Arming.antt =====
-- src/timer/TimerQueue.cc: whether the timerfd is set while timers wait.
use network_library.Prelude.{
  ℕ, ◌≡◌, refl, Bool, true, false, List, [], ◌∷◌, Option, none, some, arith, ltb, leb, Bool-cases,
  inl, inr,
}
use network_library.Timers.{
  Timer, Entry, TimerQueue, insert, reset_timerfd, add_timer_in_loop, recycle, rearm, reset,
  split_before, sentry, get_expired, uintptr_max, run_all, handle_read,
}
use network_library.Timers.Expiry.{none_due}

abbrev pub is_some {ℓ} : {A : Type ℓ} → Option A → Bool
is_some none = false
is_some (some _) = true

-- The timerfd is set, unless there is nothing to wait for.
abbrev pub is_armed : List Entry → Bool → Bool
is_armed [] set = true
is_armed (x ∷ xs) set = set

split_before-due :
    (now : ℕ) (timers : List Entry) (x : Entry) (xs : List Entry)
    → timers ≡ x ∷ xs
    → leb x.time now ≡ true
    → ltb x.timer.id uintptr_max ≡ true
    → (split_before (sentry now) timers).0 ≡ x ∷ (split_before (sentry now) xs).0
unfolding split_before
split_before-due now timers x xs h due small = rw h (ground (arith, due, small))

split_before-early :
    (now : ℕ) (xs : List Entry) → none_due now xs ≡ true → split_before (sentry now) xs ≡ ([], xs)
unfolding split_before
split_before-early now [] h = refl
split_before-early now (x ∷ xs) h = ground (arith, h)

module _ (clock : ℕ → ℕ) where
  rearm-is_armed :
      (q : TimerQueue) → is_armed (rearm clock q).timers (is_some (rearm clock q).armed) ≡ true
  unfolding rearm reset_timerfd
  rearm-is_armed q = on q.timers
    where
      on :
          (xs : List Entry)
          → is_armed
              (rearm clock (record q { timers = xs })).timers
              (is_some (rearm clock (record q { timers = xs })).armed)
            ≡ true
      on [] = refl
      on (x ∷ xs) = refl

  reset-is_armed :
      (es : List Entry) (q : TimerQueue)
      → is_armed q.timers (is_some q.armed) ≡ true
      → is_armed (reset clock es q).timers (is_some (reset clock es q).armed) ≡ true
  unfolding reset
  reset-is_armed [] q h = h
  reset-is_armed (e ∷ es) q h =
      reset-is_armed es (rearm clock (recycle clock e.timer q))
        (rearm-is_armed (recycle clock e.timer q))

  -- addTimerInLoop leaves the timerfd set, if it was set or nothing waited.
  pub add_timer_in_loop-is_armed :
      (t : Timer) (q : TimerQueue)
      → is_armed q.timers (is_some q.armed) ≡ true
      → is_some (add_timer_in_loop clock t q).armed ≡ true
  unfolding add_timer_in_loop insert reset_timerfd
  add_timer_in_loop-is_armed t q h = on q.timers h
    where
      on :
          (xs : List Entry)
          → is_armed xs (is_some q.armed) ≡ true
          → is_some (add_timer_in_loop clock t (record q { timers = xs })).armed ≡ true
      on [] k = refl
      on (x ∷ xs) k = elim (Bool-cases (ltb t.expiration x.time)) [
        | inl first ↦ rw (first, add_timer_in_loop) refl
        | inr later ↦ rw (later, add_timer_in_loop) k
      ]

  reset_some-is_armed :
      (es : List Entry) (e : Entry) (rest : List Entry) (q : TimerQueue)
      → es ≡ e ∷ rest
      → is_armed (reset clock es q).timers (is_some (reset clock es q).armed) ≡ true
  unfolding reset
  reset_some-is_armed es e rest q h = rw h (
      reset-is_armed rest (rearm clock (recycle clock e.timer q))
        (rearm-is_armed (recycle clock e.timer q)))

  module _ (callback : Timer → List Timer) where
    -- handleRead with its first timer due sets the timerfd again if any timer waits afterwards, whatever the
    -- callbacks add.
    pub handle_read-is_armed :
        (q : TimerQueue) (x : Entry) (xs : List Entry)
        → q.timers ≡ x ∷ xs
        → leb x.time (clock q.ticks) ≡ true
        → ltb x.timer.id uintptr_max ≡ true
        → is_armed
            (handle_read clock callback q).timers
            (is_some (handle_read clock callback q).armed)
          ≡ true
    unfolding handle_read get_expired split_before
    handle_read-is_armed q x xs h due small =
        reset_some-is_armed _ x _ _ (split_before-due (clock q.ticks) q.timers x xs h due small)

    -- Woken before its first timer is due, handleRead keeps its timers and does not set the timerfd again, so that
    -- nothing wakes it for them.
    pub handle_read-early :
        (q : TimerQueue)
        → none_due (clock q.ticks) q.timers ≡ true
        → ((handle_read clock callback q).timers ≡ q.timers)
          × ((handle_read clock callback q).armed ≡ none)
    unfolding handle_read get_expired split_before run_all reset
    handle_read-early q h =
        rw (split_before-early (clock q.ticks) q.timers h, handle_read) (refl, refl)
