-- ===== src/Memory/FreeList/Valid.antt =====
-- src/memory/common.hpp: the objects of a FreeList, and what push, PushRange and pop do to them.
use network_library.Prelude.{ℕ, ◌+◌, ◌<◌, ◌≡◌, true, false, List, ◌∷◌, arith, length, ◌==◌}
use network_library.Prelude.Words.{add_size, sub_size, size_mod}
use network_library.Memory.Heap.{Heap, returned, write, has, distinct, leads, leads-write}
use network_library.Memory.FreeList.{FreeList, push, pop}

-- The list holds these objects, each once, front first.
pub record Holds (h : Heap) (l : FreeList) (xs : List ℕ) : Type 0 where
  pub chain : leads h l.head xs 0 ≡ true
  pub apart : distinct xs ≡ true
  pub count : l.size ≡ length xs
  pub small : length xs < size_mod

abbrev pub pushed : ℕ → FreeList → FreeList
pushed obj l = record l { head = obj; size = add_size l.size 1 }

pub push-Holds :
    {h : Heap} {l : FreeList} {xs : List ℕ} (obj : ℕ)
    → Holds h l xs
    → (obj == 0) ≡ false
    → has obj xs ≡ false
    → length xs + 1 < size_mod
    → (push obj l h ≡ returned (pushed obj l, write obj l.head h))
      × Holds (write obj l.head h) (pushed obj l) (obj ∷ xs)
unfolding push
push-Holds {h} {l} {xs} obj v some_obj new small = (
  ground (arith, some_obj),
  record {
    chain = ground (arith, v.chain, some_obj, leads-write h obj l.head l.head xs 0 new);
    apart = ground (arith, new, v.apart);
    count = omega (arith, v.count, v.small);
    small = omega (arith, small);
  },
)

abbrev pub popped : ℕ → FreeList → FreeList
popped next l = record l { head = next; size = sub_size l.size 1 }

pub pop-Holds :
    {h : Heap} {l : FreeList} {xs : List ℕ} (x : ℕ)
    → Holds h l (x ∷ xs)
    → (pop l h ≡ returned (x, popped (h x) l)) × Holds h (popped (h x) l) xs
unfolding pop
pop-Holds {h} {l} {xs} x v = (
  ground (arith, v.chain),
  record {
    chain = ground (arith, v.chain);
    apart = ground (arith, v.apart);
    count = omega (arith, v.count, v.small);
    small = omega (arith, v.small);
  },
)
