-- ===== src/Memory/Heap.antt =====
-- src/memory/common.hpp: the words of memory, and what can go wrong in a function of the allocator.
--
-- An address is a number, 0 the null pointer. `NEXT_OBJ` of an address is the word that stands there. A run returns,
-- reads or writes through a null pointer, fails an `assert`, or
-- takes a span out of a list that it is not in, through links that are stale. A model of a
-- loop may run out of fuel.
use network_library.Prelude.{
  ℕ, ◌≡◌, refl, Bool, true, false, not, ◌&&◌, ◌||◌, List, [], ◌∷◌, ◌++◌, ◌==◌, if◌then◌else◌, arith,
}

abbrev pub Heap : Type 0
Heap = ℕ → ℕ

pub data Run (A : Type 0) : Type 0 where
  returned : A → Run A
  null_access aborted stray out_of_fuel : Run A

infixl 5 ◌>>=◌
abbrev pub ◌>>=◌ : {A B : Type 0} → Run A → (A → Run B) → Run B
returned a >>= f = f a
null_access >>= f = null_access
aborted >>= f = aborted
stray >>= f = stray
out_of_fuel >>= f = out_of_fuel

-- `assert`, and what follows it.
abbrev pub asserting : {A : Type 0} → Bool → Run A → Run A
asserting test rest = if test then rest else aborted

abbrev pub write : ℕ → ℕ → Heap → Heap
write p v h q = if q == p then v else h q

-- `NEXT_OBJ` on the right and on the left of an assignment.
abbrev pub load : ℕ → Heap → Run ℕ
load p h = if p == 0 then null_access else returned (h p)

abbrev pub store : ℕ → ℕ → Heap → Run Heap
store p v h = if p == 0 then null_access else returned (write p v h)

abbrev pub has : ℕ → List ℕ → Bool
has a [] = false
has a (x ∷ xs) = (a == x) || has a xs

abbrev pub distinct : List ℕ → Bool
distinct [] = true
distinct (x ∷ xs) = not (has x xs) && distinct xs

-- From `p` the words lead through the objects, none of them null, to `end`.
abbrev pub leads : Heap → ℕ → List ℕ → ℕ → Bool
leads h p [] end = p == end
leads h p (x ∷ xs) end = (p == x) && not (x == 0) && leads h (h x) xs end

-- A write to another object does not matter.
pub leads-write :
    (h : Heap) (a v p : ℕ) (xs : List ℕ) (end : ℕ)
    → has a xs ≡ false
    → leads (write a v h) p xs end ≡ leads h p xs end
leads-write h a v p [] end out = refl
leads-write h a v p (x ∷ xs) end out = ground (arith, leads-write h a v (h x) xs end)

pub leads-append :
    (h : Heap) (p : ℕ) (xs ys : List ℕ) (middle end : ℕ)
    → leads h p xs middle ≡ true
    → leads h middle ys end ≡ true
    → leads h p (xs ++ ys) end ≡ true
leads-append h p [] ys middle end a b = ground (arith, a, b)
leads-append h p (x ∷ xs) ys middle end a b =
    ground (arith, a, b, leads-append h (h x) xs ys middle end)

pub has-append : (a : ℕ) (xs ys : List ℕ) → has a (xs ++ ys) ≡ (has a xs || has a ys)
has-append a [] ys = refl
has-append a (x ∷ xs) ys = ground (arith, has-append a xs ys)

-- Neither does one of the word that is there.
pub leads-write_same :
    (h : Heap) (a v p : ℕ) (xs : List ℕ) (end : ℕ)
    → h a ≡ v
    → leads (write a v h) p xs end ≡ leads h p xs end
leads-write_same h a v p [] end e = refl
leads-write_same h a v p (x ∷ xs) end e = ground (arith, e, leads-write_same h a v (h x) xs end e)
