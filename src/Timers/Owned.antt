-- ===== src/Timers/Owned.antt =====
-- src/timer/TimerQueue.cc and src/net/EventLoop.h: every timer that was made waits or was deleted, once.
use network_library.Prelude.{
  ℕ, suc, ◌+◌, ◌≤◌, ◌≡◌, refl, sym, ap, subst, true, false, List, [], ◌∷◌, ◌++◌, arith, ◌==◌,
  if◌then◌else◌, Bool-cases, List-cases, inl, inr, none,
}
use mathlib.Core.List.{append_assoc, append-nil}
use network_library.Timers.{
  Timer, Entry, TimerQueue, is_earliest, set_insert, insert, add_time, restart, split_before,
  sentry, get_expired, reset_timerfd, add_timer_in_loop, add_all, recycle, rearm, reset, run_all,
  handle_read,
}

abbrev pub count : ℕ → List ℕ → ℕ
count i [] = 0
count i (x ∷ xs) = if i == x then suc (count i xs) else count i xs

abbrev pub ids : List Entry → List ℕ
ids [] = []
ids (e ∷ es) = e.timer.id ∷ ids es

abbrev pub timer_ids : List Timer → List ℕ
timer_ids [] = []
timer_ids (t ∷ ts) = t.id ∷ timer_ids ts

-- No address is that of two timers.
abbrev pub AtMostOnce : List ℕ → Type 0
AtMostOnce xs = (i : ℕ) → count i xs ≤ 1

-- The timers that were made are those that are being run, those that wait and those that were deleted.
abbrev pub Owns : List ℕ → List ℕ → TimerQueue → Type 0
Owns made running q =
    (i : ℕ) → count i running + count i (ids q.timers) + count i q.deleted ≡ count i made

pub count-append : (i : ℕ) (xs ys : List ℕ) → count i (xs ++ ys) ≡ count i xs + count i ys
count-append i [] ys = omega arith
count-append i (x ∷ xs) ys = ground (arith, count-append i xs ys)

count-set_insert :
    (i : ℕ) (e : Entry) (xs : List Entry)
    → count e.timer.id (ids xs) ≡ 0
    → count i (ids (set_insert e xs)) ≡ count i (e.timer.id ∷ ids xs)
unfolding set_insert
count-set_insert i e [] h = refl
count-set_insert i e (x ∷ xs) h = ground (arith, h, count-set_insert i e xs)

count-split_before :
    (i : ℕ) (s : Entry) (xs : List Entry)
    → count i (ids (split_before s xs).0) + count i (ids (split_before s xs).1) ≡ count i (ids xs)
unfolding split_before
count-split_before i s [] = refl
count-split_before i s (x ∷ xs) = ground (arith, count-split_before i s xs)

pub count-cons : (i x : ℕ) (xs : List ℕ) → count i (x ∷ xs) ≡ count i (x ∷ []) + count i xs
count-cons i x xs = ground arith

module _ (clock : ℕ → ℕ) where
  rearm-same :
      (q : TimerQueue) → ((rearm clock q).timers ≡ q.timers) × ((rearm clock q).deleted ≡ q.deleted)
  unfolding rearm reset_timerfd
  rearm-same q = elim (List-cases q.timers) [
    | inl e ↦ rw (e, rearm) (e, refl)
    | inr (x, xs, e) ↦ rw (e, rearm, reset_timerfd) (e, refl)
  ]

  add_timer_in_loop-same :
      (t : Timer) (q : TimerQueue)
      → ((add_timer_in_loop clock t q).timers
          ≡ set_insert (record { time = t.expiration; timer = t }) q.timers)
        × ((add_timer_in_loop clock t q).deleted ≡ q.deleted)
  unfolding add_timer_in_loop insert reset_timerfd
  add_timer_in_loop-same t q = elim (Bool-cases (is_earliest t.expiration q.timers)) [
    | inl first ↦ rw first (refl, refl)
    | inr later ↦ rw later (refl, refl)
  ]

  -- One more timer, at an address of its own.
  pub add_timer_in_loop-Owns :
      (t : Timer) (q : TimerQueue) (made running : List ℕ)
      → Owns made running q
      → AtMostOnce (made ++ t.id ∷ [])
      → Owns (made ++ t.id ∷ []) running (add_timer_in_loop clock t q)
  add_timer_in_loop-Owns t q made running o once i =
      let (waits, gone) = add_timer_in_loop-same t q in
      let own : count t.id (t.id ∷ []) ≡ 1 = ground arith in
      let absent : count t.id (ids q.timers) ≡ 0 =
        omega (arith, o t.id, once t.id, count-append t.id made (t.id ∷ []), own) in
      omega (
        arith,
        o i,
        ap (λ es. count i (ids es)) waits,
        ap (count i) gone,
        count-set_insert i (record { time = t.expiration; timer = t }) q.timers absent,
        count-append i made (t.id ∷ []),
        count-cons i t.id (ids q.timers),
      )

  add_all-Owns :
      (ts : List Timer) (q : TimerQueue) (made running : List ℕ)
      → Owns made running q
      → AtMostOnce (made ++ timer_ids ts)
      → Owns (made ++ timer_ids ts) running (add_all clock ts q)
  unfolding add_all
  add_all-Owns [] q made running o once = subst (λ m. Owns m running q) (sym (append-nil made)) o
  add_all-Owns (t ∷ ts) q made running o once =
      let regroup = append_assoc made (t.id ∷ []) (timer_ids ts) in
      subst (λ m. Owns m running (add_all clock ts (add_timer_in_loop clock t q))) regroup
        (add_all-Owns ts (add_timer_in_loop clock t q) (made ++ t.id ∷ []) running
          (add_timer_in_loop-Owns t q made running o (λ i. omega (
            arith,
            once i,
            ap (count i) regroup,
            count-append i (made ++ t.id ∷ []) (timer_ids ts),
          )))
          (subst AtMostOnce (sym regroup) once))

  recycle-count :
      (t : Timer) (q : TimerQueue) (made running : List ℕ) (i : ℕ)
      → Owns made (t.id ∷ running) q
      → AtMostOnce made
      → count i running
          + count i (ids (recycle clock t q).timers)
          + count i (recycle clock t q).deleted
        ≡ count i made
  unfolding recycle insert restart
  recycle-count t q made running i o once =
      let own : count t.id (t.id ∷ running) ≡ suc (count t.id running) = ground arith in
      let absent : count t.id (ids q.timers) ≡ 0 = omega (arith, o t.id, once t.id, own) in
      elim (Bool-cases t.repeat) [
        | inl again ↦
            let entry : Entry = record {
              time = add_time (clock q.ticks) t.interval;
              timer = record t { expiration = add_time (clock q.ticks) t.interval; repeat = true };
            } in
            rw again (
              omega (
                arith,
                o i,
                count-set_insert i entry q.timers absent,
                count-cons i t.id running,
                count-cons i t.id (ids q.timers),
              ))
        | inr once_only ↦
            rw once_only
              (omega (arith, o i, count-cons i t.id running, count-cons i t.id q.deleted))
      ]

  -- A timer that has run waits again or is deleted.
  recycle-Owns :
      (t : Timer) (q : TimerQueue) (made running : List ℕ)
      → Owns made (t.id ∷ running) q
      → AtMostOnce made
      → Owns made running (rearm clock (recycle clock t q))
  recycle-Owns t q made running o once i =
      let (waits, gone) = rearm-same (recycle clock t q) in
      omega (
        arith,
        ap (λ es. count i (ids es)) waits,
        ap (count i) gone,
        recycle-count t q made running i o once,
      )

  reset-Owns :
      (es : List Entry) (q : TimerQueue) (made : List ℕ)
      → Owns made (ids es) q
      → AtMostOnce made
      → Owns made [] (reset clock es q)
  unfolding reset
  reset-Owns [] q made o once = o
  reset-Owns (e ∷ es) q made o once =
      reset-Owns es (rearm clock (recycle clock e.timer q)) made
        (recycle-Owns e.timer q made (ids es) o once) once

  module _ (callback : Timer → List Timer) where
    -- The timers that the callbacks of these add.
    abbrev pub added_by : List Entry → List ℕ
    added_by [] = []
    added_by (e ∷ es) = timer_ids (callback e.timer) ++ added_by es

    run_all-Owns :
        (es : List Entry) (q : TimerQueue) (made running : List ℕ)
        → Owns made running q
        → AtMostOnce (made ++ added_by es)
        → Owns (made ++ added_by es) running (run_all clock callback es q)
    unfolding run_all
    run_all-Owns [] q made running o once = subst (λ m. Owns m running q) (sym (append-nil made)) o
    run_all-Owns (e ∷ es) q made running o once =
        let new = timer_ids (callback e.timer) in
        let regroup = append_assoc made new (added_by es) in
        let q1 : TimerQueue = record q { ran = e.timer.id ∷ q.ran } in
        subst
          (λ m. Owns m running (run_all clock callback es (add_all clock (callback e.timer) q1)))
          regroup
          (run_all-Owns es (add_all clock (callback e.timer) q1) (made ++ new) running
            (add_all-Owns (callback e.timer) q1 made running o (λ i.
              omega
                (arith, once i, ap (count i) regroup, count-append i (made ++ new) (added_by es))))
            (subst AtMostOnce (sym regroup) once))

    -- handleRead frees no timer twice and loses none: where each timer has an address of its own, those that its
    -- callbacks add too, each timer that was made waits in the queue or was deleted, and only one of both and only
    -- once.
    pub handle_read-Owns :
        (q : TimerQueue) (made : List ℕ)
        → Owns made [] q
        → AtMostOnce (made ++ added_by (get_expired (clock q.ticks) q).0)
        → Owns
            (made ++ added_by (get_expired (clock q.ticks) q).0)
            []
            (handle_read clock callback q)
    unfolding handle_read get_expired
    handle_read-Owns q made o once =
        let s = sentry (clock q.ticks) in
        let expired = (split_before s q.timers).0 in
        let taken : TimerQueue = record q {
          timers = (split_before s q.timers).1;
          calling_expired_timers = true;
          armed = none;
          ticks = suc q.ticks;
        } in
        let owned : Owns made (ids expired) taken =
          λ i. omega (arith, o i, count-split_before i s q.timers) in
        let ran = run_all-Owns expired taken made (ids expired) owned once in
        reset-Owns expired
          (record (run_all clock callback expired taken) { calling_expired_timers = false })
          (made ++ added_by expired) ran once
