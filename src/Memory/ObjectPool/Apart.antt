-- ===== src/Memory/ObjectPool/Apart.antt =====
-- src/memory/ObjectPool.hpp: the objects that are handed out never overlap.
use network_library.Prelude.{
  ℕ, ◌+◌, ◌≤◌, ◌<◌, ◌≡◌, refl, Bool, true, false, ◌&&◌, ◌||◌, List, [], ◌∷◌, ◌++◌, ap, arith, ltb,
  leb, ◌==◌, if◌then◌else◌, Bool-cases, inl, inr,
}
use network_library.Memory.Heap.{has}

-- Two objects of this size do not overlap.
abbrev pub clear_of : ℕ → ℕ → ℕ → Bool
clear_of size a b = leb (a + size) b || leb (b + size) a

abbrev pub clear_of_all : ℕ → ℕ → List ℕ → Bool
clear_of_all size a [] = true
clear_of_all size a (x ∷ xs) = clear_of size a x && clear_of_all size a xs

abbrev pub all_apart : ℕ → List ℕ → Bool
all_apart size [] = true
all_apart size (x ∷ xs) = clear_of_all size x xs && all_apart size xs

-- Every object lies above the null pointer and ends at `top` or before.
abbrev pub all_below : ℕ → ℕ → List ℕ → Bool
all_below size top [] = true
all_below size top (x ∷ xs) = ltb 0 x && leb (x + size) top && all_below size top xs

abbrev pub remove : ℕ → List ℕ → List ℕ
remove a [] = []
remove a (x ∷ xs) = if a == x then xs else x ∷ remove a xs

-- An object of a list stands somewhere in it, where it is removed.
pub remove-middle :
    (a : ℕ) (xs : List ℕ)
    → has a xs ≡ true
    → (front : List ℕ) × (back : List ℕ) × (xs ≡ front ++ a ∷ back) × (remove a xs ≡ front ++ back)
remove-middle a [] h = cc
remove-middle a (x ∷ xs) h = elim (Bool-cases (a == x)) [
  | inl same ↦ ([], xs, ap (λ y. y ∷ xs) (ground (arith, same)), rw same refl)
  | inr other ↦
      let (front, back, e, r) = remove-middle a xs (ground (arith, h, other)) in
      (x ∷ front, back, ap (λ t. x ∷ t) e, rw other (ap (λ t. x ∷ t) r))
]

module _ (size : ℕ) where
  pub clear_of_all-middle :
      (a : ℕ) (xs : List ℕ) (y : ℕ) (ys : List ℕ)
      → clear_of_all size a (xs ++ y ∷ ys) ≡ (clear_of size a y && clear_of_all size a (xs ++ ys))
  clear_of_all-middle a [] y ys = refl
  clear_of_all-middle a (x ∷ xs) y ys = ground (arith, clear_of_all-middle a xs y ys)

  pub all_apart-middle :
      (xs : List ℕ) (y : ℕ) (ys : List ℕ)
      → all_apart size (xs ++ y ∷ ys)
        ≡ (clear_of_all size y (xs ++ ys) && all_apart size (xs ++ ys))
  all_apart-middle [] y ys = refl
  all_apart-middle (x ∷ xs) y ys =
      ground (arith, all_apart-middle xs y ys, clear_of_all-middle x xs y ys)

  pub all_below-middle :
      (top : ℕ) (xs : List ℕ) (y : ℕ) (ys : List ℕ)
      → all_below size top (xs ++ y ∷ ys) ≡ all_below size top (y ∷ (xs ++ ys))
  all_below-middle top [] y ys = refl
  all_below-middle top (x ∷ xs) y ys = ground (arith, all_below-middle top xs y ys)

  pub clear_of_all-append :
      (a : ℕ) (xs ys : List ℕ)
      → clear_of_all size a (xs ++ ys) ≡ true
      → clear_of_all size a ys ≡ true
  clear_of_all-append a [] ys h = h
  clear_of_all-append a (x ∷ xs) ys h = ground (arith, h, clear_of_all-append a xs ys)

  pub clear_of_all-front :
      (a : ℕ) (xs ys : List ℕ)
      → clear_of_all size a (xs ++ ys) ≡ true
      → clear_of_all size a xs ≡ true
  clear_of_all-front a [] ys h = refl
  clear_of_all-front a (x ∷ xs) ys h = ground (arith, h, clear_of_all-front a xs ys)

  pub all_apart-front :
      (xs ys : List ℕ) → all_apart size (xs ++ ys) ≡ true → all_apart size xs ≡ true
  all_apart-front [] ys h = refl
  all_apart-front (x ∷ xs) ys h =
      ground (arith, h, all_apart-front xs ys, clear_of_all-front x xs ys)

  pub has-inside :
      (a offset : ℕ) (xs : List ℕ)
      → offset < size
      → clear_of_all size a xs ≡ true
      → has (a + offset) xs ≡ false
  has-inside a offset [] h k = refl
  has-inside a offset (x ∷ xs) h k = ground (arith, h, k, has-inside a offset xs)

  pub has-clear :
      (a : ℕ) (xs : List ℕ) → 0 < size → clear_of_all size a xs ≡ true → has a xs ≡ false
  has-clear a [] h k = refl
  has-clear a (x ∷ xs) h k = ground (arith, h, k, has-clear a xs)

  pub all_below-weaken :
      (low top : ℕ) (xs : List ℕ)
      → low ≤ top
      → all_below size low xs ≡ true
      → all_below size top xs ≡ true
  all_below-weaken low top [] h k = refl
  all_below-weaken low top (x ∷ xs) h k = ground (arith, h, k, all_below-weaken low top xs)

  pub clear_of_all-top :
      (top a : ℕ) (xs : List ℕ)
      → top ≤ a
      → all_below size top xs ≡ true
      → clear_of_all size a xs ≡ true
  clear_of_all-top top a [] h k = refl
  clear_of_all-top top a (x ∷ xs) h k = ground (arith, h, k, clear_of_all-top top a xs)
