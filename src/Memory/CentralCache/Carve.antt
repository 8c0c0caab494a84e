-- ===== src/Memory/CentralCache/Carve.antt =====
-- src/memory/CentralCache.cc: the objects that a span is cut into.
use network_library.Prelude.{
  ℕ, zero, suc, ◌+◌, ◌*◌, ◌%◌, ◌≤◌, ◌<◌, ◌≡◌, ◌≢◌, refl, ap, ◌∙◌, Bool, true, false, ◌&&◌, List, [],
  ◌∷◌, arith, ltb, leb, ◌==◌, Bool-cases, inl, inr,
}
use network_library.Memory.Heap.{Heap, returned, ◌>>=◌, store, write, has, leads}
use network_library.Memory.CentralCache.{link_objects, carve}

-- `n` objects of a size, one behind the other.
unfoldable pub strided : ℕ → ℕ → ℕ → List ℕ
strided start size zero = []
strided start size (suc n) = start ∷ strided (start + size) size n

abbrev pub all_from : ℕ → List ℕ → Bool
all_from low [] = true
all_from low (x ∷ xs) = leb low x && all_from low xs

strided-all_from : (low start size n : ℕ) → low ≤ start → all_from low (strided start size n) ≡ true
unfolding strided
strided-all_from low start size zero h = refl
strided-all_from low start size (suc n) h =
    ground (arith, h, strided-all_from low (start + size) size n)

has-all_from : (a low : ℕ) (xs : List ℕ) → a < low → all_from low xs ≡ true → has a xs ≡ false
has-all_from a low [] h k = refl
has-all_from a low (x ∷ xs) h k = ground (arith, h, k, has-all_from a low xs)

away : (a start size n : ℕ) → a < start → has a (strided start size n) ≡ false
away a start size n h =
    has-all_from a start (strided start size n) h
      (strided-all_from start start size n (omega arith))

suc-times : (n size : ℕ) → suc n * size ≡ size + n * size
suc-times n size = grind arith

times-mod : (n size : ℕ) → 0 < size → n * size % size ≡ 0
times-mod zero size h = grind arith
times-mod (suc n) size h = grind (arith, times-mod n size h, suc-times n size)

has-strided : (start size n : ℕ) → has (start + n * size) (strided start size (suc n)) ≡ true
unfolding strided
has-strided start size zero = ground arith
has-strided start size (suc n) =
    let shift : start + suc n * size ≡ start + size + n * size = omega (arith, suc-times n size) in
    ground (
      arith,
      shift,
      has-strided (start + size) size n,
      ap (λ a. has a (strided (start + size) size (suc n))) shift,
    )

store-some : (p v : ℕ) (h : Heap) → 0 < p → store p v h ≡ returned (write p v h)
store-some p v h e = ground (arith, e)

-- What the loop does from `tail`, with the next object at `start`: it links the objects that begin before `end`.
record Linked (tail start end size : ℕ) (h h' : Heap) : Type 0 where
  count : ℕ
  chain : leads h' tail (tail ∷ strided start size count) 0 ≡ true
  enough : end ≤ start + count * size
  needed : start + count * size < end + size
  outside : (a : ℕ) → (a == tail) ≡ false → has a (strided start size count) ≡ false → h' a ≡ h a

link_objects-Linked :
    (fuel tail start end size : ℕ) (h : Heap)
    → 0 < tail
    → tail < start
    → 0 < size
    → start < end + size
    → end + size < start + fuel
    → (h' : Heap) × (link_objects fuel tail start end size h ≡ returned h')
      × Linked tail start end size h h'
unfolding link_objects strided
link_objects-Linked zero tail start end size h some_tail next some_size near enough =
    absurd (omega (arith, near, enough))
link_objects-Linked (suc fuel) tail start end size h some_tail next some_size near enough =
    elim (Bool-cases (ltb start end)) [
      | inr done ↦ (
        write tail 0 h,
        rw (done, link_objects) (store-some tail 0 h some_tail),
        record {
          count = 0;
          chain = ground (arith, some_tail);
          enough = ground (arith, done);
          needed = omega (arith, near);
          outside = λ a other out. rw other refl;
        },
      )
      | inl more ↦
          let inside : start < end = ground (arith, more) in
          let (h', e, l) =
            link_objects-Linked fuel start (start + size) end size (write tail start h)
              (omega (arith, some_tail, next)) (omega (arith, some_size)) some_size
              (omega (arith, inside)) (omega (arith, enough, some_size)) in
          let left : has tail (strided (start + size) size l.count) ≡ false =
            away tail (start + size) size l.count (omega (arith, next)) in
          let kept : h' tail ≡ start = l.outside tail (ground (arith, next)) left ∙ ground arith in
          (
            h',
            rw (more, link_objects)
                (ap (λ r. r >>= λ h1. link_objects fuel start (start + size) end size h1)
                    (store-some tail start h some_tail)
                  ∙ e),
            record {
              count = suc l.count;
              chain = ground (arith, l.chain, some_tail, kept);
              enough = omega (arith, l.enough, suc-times l.count size);
              needed = omega (arith, l.needed, suc-times l.count size);
              outside = λ a other out.
                  l.outside a (ground (arith, out)) (ground (arith, out)) ∙ rw other refl;
            },
          )
    ]

-- A span with bytes in it, cut into objects: they are linked in the order of their addresses, the first at its start,
-- as many as begin inside it, so that it takes all of them but the last to cover less than its bytes, and all of them
-- to cover all; no other word is written.
pub carve-strided :
    (start bytes size : ℕ) (h : Heap)
    → 0 < start
    → 0 < size
    → 0 < bytes
    → (n : ℕ) × (h' : Heap) × (carve start bytes size h ≡ returned h')
      × (leads h' start (strided start size (suc n)) 0 ≡ true)
      × (n * size < bytes)
      × (bytes ≤ suc n * size)
      × ((a : ℕ) → has a (strided start size (suc n)) ≡ false → h' a ≡ h a)
unfolding carve strided
carve-strided start bytes size h some_start some_size some_bytes =
    let (h', e, l) =
      link_objects-Linked (suc bytes) start (start + size) (start + bytes) size h some_start
        (omega (arith, some_size)) some_size (omega (arith, some_bytes)) (omega arith) in
    (
      l.count,
      h',
      e,
      l.chain,
      omega (arith, l.needed),
      omega (arith, l.enough, suc-times l.count size),
      λ a out. l.outside a (ground (arith, out)) (ground (arith, out)),
    )

-- A span whose bytes are no multiple of the object size gets a last object that begins inside it and ends behind it,
-- and that is handed out like the others.
pub carve-overruns :
    (start bytes size : ℕ) (h : Heap)
    → 0 < start
    → 0 < size
    → 0 < bytes
    → bytes % size ≢ 0
    → (obj : ℕ) × (objs : List ℕ) × (h' : Heap) × (carve start bytes size h ≡ returned h')
      × (leads h' start objs 0 ≡ true)
      × (has obj objs ≡ true)
      × (obj < start + bytes)
      × (start + bytes < obj + size)
carve-overruns start bytes size h some_start some_size some_bytes ragged =
    let (n, h', e, chain, before, after, _) =
      carve-strided start bytes size h some_start some_size some_bytes in
    let inexact : bytes ≢ suc n * size =
      λ q. ragged (ap (λ b. b % size) q ∙ times-mod (suc n) size some_size) in
    let strict : start + bytes < start + n * size + size =
      omega (arith, after, inexact, suc-times n size) in
    (
      start + n * size,
      strided start size (suc n),
      h',
      e,
      chain,
      has-strided start size n,
      omega (arith, before),
      strict,
    )
