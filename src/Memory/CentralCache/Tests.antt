-- ===== src/Memory/CentralCache/Tests.antt =====
-- A span of two pages that is cut into objects of 48 bytes.
use network_library.Prelude.{
  ℕ, suc, ◌+◌, ◌*◌, ◌≤◌, ◌<◌, ◌≡◌, refl, true, false, List, [], ◌∷◌, some, arith, ◌==◌,
  if◌then◌else◌,
}
use network_library.Memory.SizeClass.{index}
use network_library.Memory.PageCache.{Pool, empty_pool}
use network_library.Memory.CentralCache.Fetch.{Fetches, fetch_range_obj-Fetches}
use network_library.Memory.Heap.{Heap, returned, has, leads}
use network_library.Memory.CentralCache.{carve, usable_span, fetch_range_obj}
use network_library.Memory.CentralCache.Carve.{strided, carve-strided, carve-overruns}

abbrev fresh_heap : Heap
fresh_heap _ = 7

carve-strided_example :
    (n : ℕ) × (h' : Heap) × (carve 0x1_0000 0x2000 48 fresh_heap ≡ returned h')
    × (leads h' 0x1_0000 (strided 0x1_0000 48 (suc n)) 0 ≡ true)
    × (n * 48 < 0x2000)
    × (0x2000 ≤ suc n * 48)
    × ((a : ℕ) → has a (strided 0x1_0000 48 (suc n)) ≡ false → h' a ≡ fresh_heap a)
carve-strided_example =
    carve-strided 0x1_0000 0x2000 48 fresh_heap (omega arith) (omega arith) (omega arith)

carve-overruns_example :
    (obj : ℕ) × (objs : List ℕ) × (h' : Heap) × (carve 0x1_0000 0x2000 48 fresh_heap ≡ returned h')
    × (leads h' 0x1_0000 objs 0 ≡ true)
    × (has obj objs ≡ true)
    × (obj < 0x1_0000 + 0x2000)
    × (0x1_0000 + 0x2000 < obj + 48)
carve-overruns_example =
    carve-overruns 0x1_0000 0x2000 48 fresh_heap (omega arith) (omega arith) (omega arith)
      (omega arith)

-- A bucket whose span has three objects.
abbrev stocked : Pool
stocked = record empty_pool {
  words = λ p. if p == 8 then 16 else if p == 16 then 24 else 0;
  spans = λ _. record { npage = 1; objlist = 8; objsize = 8; usecount = 0; is_use = true };
  span_lists = λ i. if i == 0 then 64 ∷ [] else [];
}

smallest_class : index 8 ≡ some 0
unfolding index
smallest_class = refl

first_span : usable_span (stocked.span_lists 0) stocked ≡ some 64
unfolding usable_span
first_span = refl

fetch_range_obj-Fetches_example :
    Fetches 2 64 (8 ∷ 16 ∷ 24 ∷ []) stocked (fetch_range_obj (λ _. 0) (λ _. 0) 2 8 stocked)
fetch_range_obj-Fetches_example =
    fetch_range_obj-Fetches (λ _. 0) (λ _. 0) 2 8 0 64 8 (16 ∷ 24 ∷ []) stocked smallest_class
      first_span (omega arith) refl refl (omega arith) (omega arith)
