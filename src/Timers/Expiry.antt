-- ===== src/Timers/Expiry.antt =====
-- src/timer/TimerQueue.cc: which timers expire, and what stays in the queue.
use network_library.Prelude.{
  ℕ, ◌≡◌, ◌↔◌, refl, Bool, true, ◌&&◌, List, [], ◌∷◌, ◌++◌, arith, ltb, leb,
}
use network_library.Timers.{
  Timer, Entry, TimerQueue, insert, is_earliest, split_before, sentry, get_expired, uintptr_max,
}
use network_library.Timers.Order.{all_after, is_sorted, set_insert-is_sorted}

-- Every time is now or past.
abbrev pub all_due : ℕ → List Entry → Bool
all_due now [] = true
all_due now (x ∷ xs) = leb x.time now && all_due now xs

-- Every time is still to come.
abbrev pub none_due : ℕ → List Entry → Bool
none_due now [] = true
none_due now (x ∷ xs) = ltb now x.time && none_due now xs

-- No timer lies at the address of the sentry.
abbrev pub have_addresses : List Entry → Bool
have_addresses [] = true
have_addresses (x ∷ xs) = ltb x.timer.id uintptr_max && have_addresses xs

none_due-all_after :
    (now : ℕ) (x : Entry) (xs : List Entry)
    → ltb now x.time ≡ true
    → all_after x xs ≡ true
    → none_due now xs ≡ true
none_due-all_after now x [] h k = refl
none_due-all_after now x (y ∷ ys) h k = ground (arith, h, k, none_due-all_after now x ys)

pub split_before-append :
    (s : Entry) (xs : List Entry) → (split_before s xs).0 ++ (split_before s xs).1 ≡ xs
unfolding split_before
split_before-append s [] = refl
split_before-append s (x ∷ xs) = ground (arith, split_before-append s xs)

pub split_before-all_due :
    (now : ℕ) (xs : List Entry) → all_due now (split_before (sentry now) xs).0 ≡ true
unfolding split_before
split_before-all_due now [] = refl
split_before-all_due now (x ∷ xs) = ground (arith, split_before-all_due now xs)

pub split_before-none_due :
    (now : ℕ) (xs : List Entry)
    → is_sorted xs ≡ true
    → have_addresses xs ≡ true
    → none_due now (split_before (sentry now) xs).1 ≡ true
unfolding split_before
split_before-none_due now [] h k = refl
split_before-none_due now (x ∷ xs) h k =
    ground (arith, h, k, split_before-none_due now xs, none_due-all_after now x xs)

split_before-is_sorted :
    (s : Entry) (xs : List Entry) → is_sorted xs ≡ true → is_sorted (split_before s xs).1 ≡ true
unfolding split_before
split_before-is_sorted s [] h = refl
split_before-is_sorted s (x ∷ xs) h = ground (arith, h, split_before-is_sorted s xs)

-- getExpired, on a set in order whose addresses are below that of the sentry, takes the timers that are due, all of
-- them and no other, from the front, and leaves the others in their order.
pub get_expired_lem :
    (now : ℕ) (q : TimerQueue)
    → is_sorted q.timers ≡ true
    → have_addresses q.timers ≡ true
    → ((get_expired now q).0 ++ (get_expired now q).1.timers ≡ q.timers)
      × (all_due now (get_expired now q).0 ≡ true)
      × (none_due now (get_expired now q).1.timers ≡ true)
unfolding get_expired
get_expired_lem now q h k = (
  split_before-append (sentry now) q.timers,
  split_before-all_due now q.timers,
  split_before-none_due now q.timers h k,
)

is_earliest_iff :
    (time : ℕ) (xs : List Entry)
    → is_sorted xs ≡ true
    → (is_earliest time xs ≡ true) ↔ (none_due time xs ≡ true)
is_earliest_iff time [] h = (λ _. refl, λ _. refl)
is_earliest_iff time (x ∷ xs) h =
    (λ first. ground (arith, h, first, none_due-all_after time x xs), λ all. ground (arith, all))

-- insert says that the timer is the earliest exactly when every time in the queue is later than its own, and keeps the
-- queue in order.
pub insert_lem :
    (t : Timer) (q : TimerQueue)
    → is_sorted q.timers ≡ true
    → (((insert t q).0 ≡ true) ↔ (none_due t.expiration q.timers ≡ true))
      × (is_sorted (insert t q).1.timers ≡ true)
unfolding insert
insert_lem t q h = (
  is_earliest_iff t.expiration q.timers h,
  set_insert-is_sorted (record { time = t.expiration; timer = t }) q.timers h,
)
