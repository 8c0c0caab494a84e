-- ===== src/Prelude/Windows.antt =====
-- The part of a list between two positions, under writes, growth and a move of either end.
use Prim.Native.Nat.{ℕ, ◌+◌, ◌-◌, ◌≤◌}
use mathlib.Core.Path.{◌≡◌, ap}
use mathlib.Core.List.{List, ◌++◌}
use native.Mathlib.Omega.{arith}
use network_library.Prelude.Lists.{
  length, take, drop, write_at, length-take, length-drop, take-over, drop-write_at,
  drop-write_at_self, take-write_at, take-append, drop-append, drop-take, drop-drop,
}

abbrev pub window {ℓ} : {A : Type ℓ} → ℕ → ℕ → List A → List A
window from to xs = take (to - from) (drop from xs)

module _ {ℓ} {A : Type ℓ} where
  pub length-window :
      (r w : ℕ) (xs : List A) → r ≤ w → w ≤ length xs → length (window r w xs) ≡ w - r
  length-window r w xs h k = omega (arith, length-take (w - r) (drop r xs), length-drop r xs)

  pub window-write_at :
      (r w n : ℕ) (ys xs : List A)
      → r ≤ w
      → n ≡ w + length ys
      → n ≤ length xs
      → window r n (write_at w ys xs) ≡ window r w xs ++ ys
  window-write_at r w n ys xs h e k =
      rw (drop-write_at r w ys xs h (omega arith)) (
        take-write_at (w - r) (n - r) ys (drop r xs) (omega arith)
          (omega (arith, length-drop r xs)))

  pub window-write_at_self :
      (r n : ℕ) (ys xs : List A)
      → n ≡ r + length ys
      → n ≤ length xs
      → window r n (write_at r ys xs) ≡ ys
  window-write_at_self r n ys xs e k =
      let short : n - r ≡ length ys = omega arith in
      rw (short, drop-write_at_self r ys xs (omega arith))
        (take-over ys (drop r xs) (omega (arith, length-drop r xs)))

  pub window-append :
      (r w : ℕ) (xs ys : List A) → r ≤ w → w ≤ length xs → window r w (xs ++ ys) ≡ window r w xs
  window-append r w xs ys h k =
      rw (drop-append r xs ys (omega arith))
        (take-append (w - r) (drop r xs) ys (omega (arith, length-drop r xs)))

  -- The lower end moves up by `n`.
  pub window-advance :
      (r r' w n : ℕ) (xs : List A) → r' ≡ r + n → r' ≤ w → window r' w xs ≡ drop n (window r w xs)
  window-advance r r' w n xs e h =
      rw (drop-take n (w - r) (drop r xs) (omega arith), drop-drop n r xs, ← e)
        (ap (λ k. take k (drop r' xs)) (let k : w - r' ≡ w - r - n = omega arith in k))
