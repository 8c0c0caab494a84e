-- ===== src/Prelude/Lists.antt =====
-- Lists measured and indexed by native numbers, with writes of a block at a position, which is
-- how the program uses a `std::vector<char>`.
use Prim.Native.Nat.{ℕ, zero, suc, ◌+◌, ◌-◌, ◌≤◌, min}
use mathlib.Core.Path.{◌≡◌, refl, ap}
use mathlib.Core.List.{List, [], ◌∷◌, ◌++◌}
use mathlib.Core.Option.{Option, none, some}
use native.Mathlib.Omega.{arith}

module _ {ℓ} {A : Type ℓ} where
  abbrev pub length : List A → ℕ
  length [] = 0
  length (x ∷ xs) = suc (length xs)

  abbrev pub get_elem? : List A → ℕ → Option A
  get_elem? [] i = none
  get_elem? (x ∷ xs) zero = some x
  get_elem? (x ∷ xs) (suc i) = get_elem? xs i

  abbrev pub get_or : List A → ℕ → A → A
  get_or [] i d = d
  get_or (x ∷ xs) zero d = x
  get_or (x ∷ xs) (suc i) d = get_or xs i d

  -- A write out of bounds changes nothing.
  abbrev pub set : List A → ℕ → A → List A
  set [] i v = []
  set (x ∷ xs) zero v = v ∷ xs
  set (x ∷ xs) (suc i) v = x ∷ set xs i v

  abbrev pub take : ℕ → List A → List A
  take zero xs = []
  take (suc n) [] = []
  take (suc n) (x ∷ xs) = x ∷ take n xs

  abbrev pub drop : ℕ → List A → List A
  drop zero xs = xs
  drop (suc n) [] = []
  drop (suc n) (x ∷ xs) = drop n xs

  abbrev pub replicate : ℕ → A → List A
  replicate zero a = []
  replicate (suc n) a = a ∷ replicate n a

  -- `ys` over the front of `xs`, never growing `xs`.
  abbrev pub over : List A → List A → List A
  over [] xs = xs
  over (y ∷ ys) [] = []
  over (y ∷ ys) (x ∷ xs) = y ∷ over ys xs

  -- `ys` over `xs` from index `i` on.
  abbrev pub write_at : ℕ → List A → List A → List A
  write_at zero ys xs = over ys xs
  write_at (suc i) ys [] = []
  write_at (suc i) ys (x ∷ xs) = x ∷ write_at i ys xs

module _ {ℓ} {A : Type ℓ} where
  pub length-append : (xs ys : List A) → length (xs ++ ys) ≡ length xs + length ys
  length-append [] ys = omega arith
  length-append (x ∷ xs) ys = omega (arith, length-append xs ys)

  pub length-take : (n : ℕ) (xs : List A) → length (take n xs) ≡ min n (length xs)
  length-take zero xs = omega arith
  length-take (suc n) [] = omega arith
  length-take (suc n) (x ∷ xs) = omega (arith, length-take n xs)

  pub length-drop : (n : ℕ) (xs : List A) → length (drop n xs) ≡ length xs - n
  length-drop zero xs = omega arith
  length-drop (suc n) [] = omega arith
  length-drop (suc n) (x ∷ xs) = omega (arith, length-drop n xs)

  pub length-replicate : (n : ℕ) (a : A) → length (replicate n a) ≡ n
  length-replicate zero a = refl
  length-replicate (suc n) a = ap suc (length-replicate n a)

  pub length-over : (ys xs : List A) → length (over ys xs) ≡ length xs
  length-over [] xs = refl
  length-over (y ∷ ys) [] = refl
  length-over (y ∷ ys) (x ∷ xs) = ap suc (length-over ys xs)

  pub length-write_at : (i : ℕ) (ys xs : List A) → length (write_at i ys xs) ≡ length xs
  length-write_at zero ys xs = length-over ys xs
  length-write_at (suc i) ys [] = refl
  length-write_at (suc i) ys (x ∷ xs) = ap suc (length-write_at i ys xs)

  pub take-nil : (n : ℕ) → take n (let e : List A = [] in e) ≡ []
  take-nil zero = refl
  take-nil (suc n) = refl

  pub drop-nil : (n : ℕ) → drop n (let e : List A = [] in e) ≡ []
  drop-nil zero = refl
  drop-nil (suc n) = refl

  pub take-all : (n : ℕ) (xs : List A) → length xs ≤ n → take n xs ≡ xs
  take-all zero [] h = refl
  take-all zero (x ∷ xs) h = absurd (omega arith)
  take-all (suc n) [] h = refl
  take-all (suc n) (x ∷ xs) h = ap (◌∷◌ x) (take-all n xs (omega arith))

  pub drop-all : (n : ℕ) (xs : List A) → length xs ≤ n → drop n xs ≡ []
  drop-all zero [] h = refl
  drop-all zero (x ∷ xs) h = absurd (omega arith)
  drop-all (suc n) [] h = refl
  drop-all (suc n) (x ∷ xs) h = drop-all n xs (omega arith)

  pub take-append : (n : ℕ) (xs ys : List A) → n ≤ length xs → take n (xs ++ ys) ≡ take n xs
  take-append zero xs ys h = refl
  take-append (suc n) [] ys h = absurd (omega arith)
  take-append (suc n) (x ∷ xs) ys h = ap (◌∷◌ x) (take-append n xs ys (omega arith))

  pub drop-append : (n : ℕ) (xs ys : List A) → n ≤ length xs → drop n (xs ++ ys) ≡ drop n xs ++ ys
  drop-append zero xs ys h = refl
  drop-append (suc n) [] ys h = absurd (omega arith)
  drop-append (suc n) (x ∷ xs) ys h = drop-append n xs ys (omega arith)

  pub take-append_length : (xs ys : List A) → take (length xs) (xs ++ ys) ≡ xs
  take-append_length [] ys = refl
  take-append_length (x ∷ xs) ys = ap (◌∷◌ x) (take-append_length xs ys)

  pub drop-append_length : (xs ys : List A) → drop (length xs) (xs ++ ys) ≡ ys
  drop-append_length [] ys = refl
  drop-append_length (x ∷ xs) ys = drop-append_length xs ys

  pub take-append-drop : (n : ℕ) (xs : List A) → take n xs ++ drop n xs ≡ xs
  take-append-drop zero xs = refl
  take-append-drop (suc n) [] = refl
  take-append-drop (suc n) (x ∷ xs) = ap (◌∷◌ x) (take-append-drop n xs)

  -- Dropping `m` from the first `n` leaves the first `n - m` of what is dropped.
  pub drop-take : (m n : ℕ) (xs : List A) → m ≤ n → drop m (take n xs) ≡ take (n - m) (drop m xs)
  drop-take zero n xs h = ap (λ k. take k xs) (omega arith)
  drop-take (suc m) zero xs h = absurd (omega arith)
  drop-take (suc m) (suc n) [] h = rw (take-nil (suc n - suc m))
  drop-take (suc m) (suc n) (x ∷ xs) h =
      rw (drop-take m n xs (omega arith)) (ap (λ k. take k (drop m xs)) (omega arith))

  pub take-take : (m n : ℕ) (xs : List A) → m ≤ n → take m (take n xs) ≡ take m xs
  take-take zero n xs h = refl
  take-take (suc m) zero xs h = absurd (omega arith)
  take-take (suc m) (suc n) [] h = refl
  take-take (suc m) (suc n) (x ∷ xs) h = ap (◌∷◌ x) (take-take m n xs (omega arith))

  pub drop-drop : (m n : ℕ) (xs : List A) → drop m (drop n xs) ≡ drop (n + m) xs
  drop-drop m zero xs = ap (λ k. drop k xs) (omega arith)
  drop-drop m (suc n) [] = rw (drop-nil m) (rw (drop-nil (suc n + m)))
  drop-drop m (suc n) (x ∷ xs) =
      rw (drop-drop m n xs)
        (ap (λ k. drop k (x ∷ xs)) (let e : suc (n + m) ≡ suc n + m = omega arith in e))

  pub take-over : (ys xs : List A) → length ys ≤ length xs → take (length ys) (over ys xs) ≡ ys
  take-over [] xs h = refl
  take-over (y ∷ ys) [] h = absurd (omega arith)
  take-over (y ∷ ys) (x ∷ xs) h = ap (◌∷◌ y) (take-over ys xs (omega arith))

  pub drop-write_at_self :
      (i : ℕ) (ys xs : List A) → i ≤ length xs → drop i (write_at i ys xs) ≡ over ys (drop i xs)
  drop-write_at_self zero ys xs h = refl
  drop-write_at_self (suc i) ys [] h = absurd (omega arith)
  drop-write_at_self (suc i) ys (x ∷ xs) h = drop-write_at_self i ys xs (omega arith)

  pub drop-write_at :
      (r i : ℕ) (ys xs : List A)
      → r ≤ i
      → i ≤ length xs
      → drop r (write_at i ys xs) ≡ write_at (i - r) ys (drop r xs)
  drop-write_at zero i ys xs h k = ap (λ j. write_at j ys xs) (omega arith)
  drop-write_at (suc r) zero ys xs h k = absurd (omega arith)
  drop-write_at (suc r) (suc i) ys [] h k = absurd (omega arith)
  drop-write_at (suc r) (suc i) ys (x ∷ xs) h k =
      rw (drop-write_at r i ys xs (omega arith) (omega arith))
        (ap (λ j. write_at j ys (drop r xs)) (omega arith))

  pub take-write_at :
      (k n : ℕ) (ys xs : List A)
      → n ≡ k + length ys
      → n ≤ length xs
      → take n (write_at k ys xs) ≡ take k xs ++ ys
  take-write_at zero n ys xs e h =
      rw (let e' : n ≡ length ys = omega arith in e') (take-over ys xs (omega arith))
  take-write_at (suc k) n ys [] e h = absurd (omega arith)
  take-write_at (suc k) zero ys (x ∷ xs) e h = absurd (omega arith)
  take-write_at (suc k) (suc n) ys (x ∷ xs) e h =
      ap (◌∷◌ x) (take-write_at k n ys xs (omega arith) (omega arith))
