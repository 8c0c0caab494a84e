-- ===== src/Memory/FreeList/Batch.antt =====
-- src/memory/common.hpp: PushRange and PopRange, which move a whole chain of objects.
use network_library.Prelude.{
  ℕ, zero, suc, ◌+◌, ◌<◌, ◌≤◌, ◌≡◌, refl, sym, ap, subst, ◌∙◌, true, false, List, [], ◌∷◌, ◌++◌,
  arith, length, length-append, leb, ◌==◌, Bool-cases, inl, inr,
}
use network_library.Prelude.Words.{add_size, sub_size, size_mod}
use network_library.Memory.Heap.{
  Heap, Run, returned, null_access, aborted, ◌>>=◌, load, store, write, has, distinct, leads,
  leads-write, leads-write_same, leads-append, has-append,
}
use network_library.Memory.FreeList.{FreeList, push_range, walk, pop_range}
use network_library.Memory.FreeList.Valid.{Holds}

pub distinct-middle :
    (xs : List ℕ) (a : ℕ) (ys : List ℕ)
    → distinct (xs ++ a ∷ ys) ≡ true
    → (has a xs ≡ false) × (has a ys ≡ false)
distinct-middle [] a ys d = ground (arith, d)
distinct-middle (x ∷ xs) a ys d =
    ground (arith, d, has-append x xs (a ∷ ys), distinct-middle xs a ys)

last : ℕ → List ℕ → ℕ
last x [] = x
last x (y ∷ ys) = last y ys

has-last : (x : ℕ) (xs : List ℕ) → has (last x xs) (x ∷ xs) ≡ true
unfolding last
has-last x [] = ground arith
has-last x (y ∷ ys) = ground (arith, has-last y ys)

-- PushRange of a chain of new objects, from `start` through `front` to `end`, puts them before the others.
pub push_range-Holds :
    {h : Heap} {l : FreeList} {xs : List ℕ} (start end n : ℕ) (front : List ℕ)
    → Holds h l xs
    → leads h start front end ≡ true
    → distinct (front ++ (end ∷ xs)) ≡ true
    → (end == 0) ≡ false
    → n ≡ suc (length front)
    → length xs + n < size_mod
    → (push_range start end n l h
        ≡ returned (record l { head = start; size = add_size l.size n }, write end l.head h))
      × Holds
          (write end l.head h)
          (record l { head = start; size = add_size l.size n })
          (front ++ end ∷ xs)
unfolding push_range
push_range-Holds {h} {l} {xs} start end n front v chain apart some_end e small =
    let (out, behind) = distinct-middle front end xs apart in
    (
      ground (arith, some_end),
      record {
        chain =
            leads-append (write end l.head h) start front (end ∷ xs) end 0
              (leads-write h end l.head start front end out ∙ chain)
              (ground (arith, some_end, v.chain, leads-write h end l.head l.head xs 0 behind));
        apart = apart;
        count = omega (arith, v.count, v.small, e, length-append front (end ∷ xs));
        small = omega (arith, small, e, length-append front (end ∷ xs));
      },
    )

walk-last :
    (h : Heap) (p x : ℕ) (xs : List ℕ)
    → leads h p (x ∷ xs) 0 ≡ true
    → (walk (length xs) p h ≡ returned (last x xs))
      × (h (last x xs) ≡ 0)
      × ((last x xs == 0) ≡ false)
unfolding walk last
walk-last h p x [] c = ground (arith, c)
walk-last h p x (y ∷ ys) c = ground (arith, c, walk-last h (h x) y ys)

load-some : (p : ℕ) (h : Heap) → (p == 0) ≡ false → load p h ≡ returned (h p)
load-some p h e = rw e refl

-- A walk of at least as many steps as there are objects ends at the null pointer or reads through it.
walk-past :
    {A : Type 0} (h : Heap) (p : ℕ) (xs : List ℕ) (k : ℕ) (f : ℕ → ℕ → Run A)
    → leads h p xs 0 ≡ true
    → length xs ≤ k
    → (walk k p h >>= λ end. load end h >>= f end) ≡ null_access
unfolding walk
walk-past h p [] zero f c n = rw c refl
walk-past h p (x ∷ xs) zero f c n = absurd (omega (arith, n))
walk-past h p [] (suc k) f c n = rw c refl
walk-past h p (x ∷ xs) (suc k) f c n =
    let e : p ≡ x = ground (arith, c) in
    ap (λ r. r >>= (λ next. walk k next h) >>= λ end. load end h >>= f end)
      (load-some p h (ground (arith, c)))
    ∙ walk-past h (h p) xs k f (subst (λ q. leads h (h q) xs 0 ≡ true) (sym e) (ground (arith, c)))
        (omega (arith, n))

-- What a run of PopRange of n objects from a list of xs is: with fewer than all it fails its assert, with more, or with
-- none of none, it reads through the null pointer, and with all, and some, it hands out the whole chain and leaves the
-- empty list.
pub data Pops (n : ℕ) (xs : List ℕ) : Run ((ℕ × ℕ) × FreeList × Heap) → Type 0 where
  fewer : n < length xs → Pops n xs aborted
  more : length xs < n → Pops n xs null_access
  none_of_none : n ≡ 0 → xs ≡ [] → Pops n xs null_access
  whole :
      (x : ℕ) (rest : List ℕ) (end : ℕ) (l : FreeList) (h : Heap)
      → xs ≡ x ∷ rest
      → n ≡ length xs
      → Holds h l []
      → leads h x xs 0 ≡ true
      → Pops n xs (returned ((x, end), l, h))

pub pop_range-aborted :
    (h : Heap) (l : FreeList) (n : ℕ) → leb l.size n ≡ false → pop_range n l h ≡ aborted
unfolding pop_range
pop_range-aborted h l n e = rw e refl

pop_range-past :
    (h : Heap) (l : FreeList) (xs : List ℕ) (n : ℕ)
    → leb l.size n ≡ true
    → leads h l.head xs 0 ≡ true
    → length xs ≤ sub_size n 1
    → pop_range n l h ≡ null_access
unfolding pop_range
pop_range-past h l xs n e c k = rw e (
    walk-past h l.head xs (sub_size n 1)
      (λ end rest. store end 0 h >>= λ h'.
        returned ((l.head, end), record l { head = rest; size = sub_size l.size n }, h'))
      c k)

abbrev pub emptied : ℕ → FreeList → FreeList
emptied n l = record l { head = 0; size = sub_size l.size n }

pop_range-whole :
    (h : Heap) (l : FreeList) (x : ℕ) (rest : List ℕ) (n : ℕ)
    → Holds h l (x ∷ rest)
    → n ≡ length (x ∷ rest)
    → pop_range n l h ≡ returned ((l.head, last x rest), emptied n l, write (last x rest) 0 h)
unfolding pop_range
pop_range-whole h l x rest n v e =
    let (walked, ends, some_end) = walk-last h l.head x rest v.chain in
    let steps : sub_size n 1 ≡ length rest = omega (arith, e, v.small) in
    let passes : leb l.size n ≡ true = ground (arith, v.count, e) in
    cc (walked, steps, ends, some_end, passes)

-- PopRange on every number of objects.
pub pop_range-Pops :
    (h : Heap) (l : FreeList) (xs : List ℕ) (n : ℕ)
    → Holds h l xs
    → n < size_mod
    → Pops n xs (pop_range n l h)
pop_range-Pops h l xs n v small = elim (Bool-cases (leb l.size n)) [
  | inr few ↦
      subst (Pops n xs) (sym (pop_range-aborted h l n few)) (fewer (ground (arith, few, v.count)))
  | inl enough ↦ elim (Bool-cases (leb n l.size)) [
    | inr many ↦
        subst (Pops n xs)
          (sym (pop_range-past h l xs n enough v.chain (ground (arith, many, v.count, small))))
          (more (ground (arith, many, v.count)))
    | inl same ↦ exactly xs v (ground (arith, enough, same, v.count))
  ]
]
  where
    exactly : (xs : List ℕ) → Holds h l xs → n ≡ length xs → Pops n xs (pop_range n l h)
    exactly [] v e =
        subst (Pops n [])
          (sym (pop_range-past h l [] n (ground (arith, v.count, e)) v.chain (omega arith)))
          (none_of_none e refl)
    exactly (x ∷ rest) v e =
        let top : l.head ≡ x = ground (arith, v.chain) in
        let (walked, ends, some_end) = walk-last h l.head x rest v.chain in
        subst (Pops n (x ∷ rest)) (sym (pop_range-whole h l x rest n v e)) (
          subst
            (λ q.
              Pops n (x ∷ rest) (returned ((q, last x rest), emptied n l, write (last x rest) 0 h)))
            (sym top)
            (whole x rest (last x rest) (emptied n l) (write (last x rest) 0 h) refl e
              (record {
                chain = refl;
                apart = refl;
                count = omega (arith, v.count, e, v.small);
                small = omega arith;
              })
              (leads-write_same h (last x rest) 0 x (x ∷ rest) 0 ends
                ∙ subst (λ q. leads h q (x ∷ rest) 0 ≡ true) top v.chain)))
