-- ===== src/Memory/SizeClass/Batches.antt =====
-- How many objects, and how many pages, move at a time.
use network_library.Prelude.{ℕ, ◌*◌, ◌/◌, ◌≤◌, ◌<◌, ◌≡◌, true, some, arith, ltb, lt→ltb}
use native.Mathlib.Nat.{div-mul-le_self, mul-le-mul_right}
use network_library.Memory.SizeClass.{
  max_bytes, npages, page_size, clamp, num_move_size, num_move_page, pages,
}

clamp_bounds : (n : ℕ) → (2 ≤ clamp n) × (clamp n ≤ 512)
clamp_bounds n = ground arith

-- Neither bound makes a batch of more bytes than twice `MAXBYTES`.
clamp-mul : (q size m : ℕ) → q * size ≤ m → size ≤ m → clamp q * size ≤ 2 * m
clamp-mul q size m h k = grind (arith, mul-le-mul_right)

pages_bounds :
    (size bytes : ℕ)
    → size ≤ max_bytes
    → 2 * size ≤ bytes
    → bytes ≤ 2 * max_bytes
    → (0 < pages bytes) × (size ≤ pages bytes * page_size) × (pages bytes < npages)
unfolding pages
pages_bounds size bytes h k l = ground arith

-- `num_move_size` gives a batch of 2 to 512 objects, and `num_move_page` at least one page, enough
-- pages for one object, and fewer than 129, so that `new_Span` serves it from its lists.
pub num_move_bounds :
    (size : ℕ)
    → 0 < size
    → size ≤ max_bytes
    → (n p : ℕ) × (num_move_size size ≡ some n)
      × (num_move_page size ≡ some p)
      × (2 ≤ n)
      × (n ≤ 512)
      × (0 < p)
      × (size ≤ p * page_size)
      × (p < npages)
unfolding num_move_size num_move_page
num_move_bounds size h k = (
  n,
  pages (n * size),
  rw pos,
  rw (pos, num_move_page),
  bounds.0,
  bounds.1,
  enough.0,
  enough.1,
  enough.2,
)
  where
    n : ℕ
    n = clamp (max_bytes / size)

    pos : ltb 0 size ≡ true
    pos = lt→ltb 0 size h

    bounds : (2 ≤ n) × (n ≤ 512)
    bounds = clamp_bounds (max_bytes / size)

    total : n * size ≤ 2 * max_bytes
    total = clamp-mul (max_bytes / size) size max_bytes (div-mul-le_self max_bytes size) k

    enough :
        (0 < pages (n * size)) × (size ≤ pages (n * size) * page_size) × (pages (n * size) < npages)
    enough = pages_bounds size (n * size) k (mul-le-mul_right size bounds.0) total
