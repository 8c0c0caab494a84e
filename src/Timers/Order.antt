-- ===== src/Timers/Order.antt =====
-- src/timer/TimerQueue.cc: the order of `timers_`, a `std::set`.
use network_library.Prelude.{
  ◌≡◌, refl, Bool, true, ◌&&◌, List, [], ◌∷◌, arith, Bool-cases, inl, inr,
}
use network_library.Timers.{Entry, before, set_insert}

abbrev pub all_after : Entry → List Entry → Bool
all_after e [] = true
all_after e (x ∷ xs) = before e x && all_after e xs

-- Strictly ascending, so that no entry stands in the set twice.
abbrev pub is_sorted : List Entry → Bool
is_sorted [] = true
is_sorted (x ∷ xs) = all_after x xs && is_sorted xs

pub before_trans : (a b c : Entry) → before a b ≡ true → before b c ≡ true → before a c ≡ true
before_trans a b c h k = ground (arith, h, k)

pub all_after_trans :
    (a b : Entry) (xs : List Entry)
    → before a b ≡ true
    → all_after b xs ≡ true
    → all_after a xs ≡ true
all_after_trans a b [] h k = refl
all_after_trans a b (x ∷ xs) h k = ground (arith, before_trans a b x h, all_after_trans a b xs h)

pub all_after-set_insert :
    (a e : Entry) (xs : List Entry)
    → before a e ≡ true
    → all_after a xs ≡ true
    → all_after a (set_insert e xs) ≡ true
unfolding set_insert
all_after-set_insert a e [] h k = ground (arith, h)
all_after-set_insert a e (x ∷ xs) h k = ground (arith, all_after-set_insert a e xs h)

pub set_insert-is_sorted :
    (e : Entry) (xs : List Entry) → is_sorted xs ≡ true → is_sorted (set_insert e xs) ≡ true
unfolding set_insert
set_insert-is_sorted e [] h = refl
set_insert-is_sorted e (x ∷ xs) h = elim (Bool-cases (before e x)) [
  | inl first ↦ ground (arith, first, h, all_after_trans e x xs first)
  | inr later ↦ elim (Bool-cases (before x e)) [
    | inl behind ↦
        ground
          (arith, later, behind, h, set_insert-is_sorted e xs, all_after-set_insert x e xs behind)
    | inr same ↦ ground (arith, later, same, h)
  ]
]
