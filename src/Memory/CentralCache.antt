-- ===== src/Memory/CentralCache.antt =====
-- src/memory/CentralCache.hpp and src/memory/CentralCache.cc: spans cut into objects of one size class each.
--
-- The bucket locks are left out: each function runs without another thread in between.
pub mod Carve
pub mod Fetch
mod Tests
use network_library.Prelude.{
  ℕ, zero, suc, ◌+◌, ◌-◌, ◌*◌, ◌^◌, Bool, true, false, not, List, [], ◌∷◌, Option, none, some, ltb,
  ◌==◌, if◌then◌else◌,
}
use network_library.Prelude.Words.{add_size, sub_size}
use network_library.Memory.SizeClass.{page_shift, index, num_move_page}
use network_library.Memory.Heap.{
  Heap, Run, returned, aborted, stray, out_of_fuel, ◌>>=◌, asserting, load, store, write, has,
}
use network_library.Memory.PageCache.{Span, Pool, page_id, set_span, set_list, erase}
use network_library.Memory.PageCache.Spans.{new_span, map_object_to_span}
use network_library.Memory.PageCache.Merge.{release_to_page_cache}

-- A failed `assert` in a size class.
abbrev pub asserted : {A : Type 0} → Option A → Run A
asserted none = aborted
asserted (some a) = returned a

-- The loop that links the objects behind `tail`, from `start` on, as long as they begin before `end`.
unfoldable pub link_objects : ℕ → ℕ → ℕ → ℕ → ℕ → Heap → Run Heap
link_objects zero tail start end size h = out_of_fuel
link_objects (suc fuel) tail start end size h = elim (ltb start end) [
  | false ↦ store tail 0 h
  | true ↦ store tail start h >>= λ h'. link_objects fuel start (start + size) end size h'
]

-- The objects of a span; it has no more of them than bytes.
unfoldable pub carve : ℕ → ℕ → ℕ → Heap → Run Heap
carve start bytes size h = link_objects (suc bytes) start (start + size) (start + bytes) size h

-- The walk through a bucket to a span that has objects.
unfoldable pub usable_span : List ℕ → Pool → Option ℕ
usable_span [] c = none
usable_span (span ∷ spans) c =
    let later = usable_span spans c in
    if not ((c.spans span).objlist == 0) then some span else later

-- The walk through the objects of a span, to at most `n` behind `end`, with the number of objects so far.
unfoldable pub take_objects : ℕ → ℕ → ℕ → Heap → ℕ × ℕ
take_objects zero actual end h = (actual, end)
take_objects (suc n) actual end h = elim (h end == 0) [
  | true ↦ (actual, end)
  | false ↦ take_objects n (actual + 1) (h end) h
]

module _ (page_memory pool_memory : ℕ → ℕ) where
  -- A new span, cut into objects, at the front of the bucket.
  unfoldable pub fill_bucket : ℕ → ℕ → Pool → Run (ℕ × Pool)
  fill_bucket i size c = do
    n ← asserted (num_move_page size)
    (span, c1) ← new_span page_memory pool_memory 2 n c
    let c2 = set_span span (record (c1.spans span) { is_use = true; objsize = size }) c1
    let start = page_id span c2 * 2 ^ page_shift
    let c3 = set_span span (record (c2.spans span) { objlist = start }) c2
    h ← carve start ((c3.spans span).npage * 2 ^ page_shift) size c3.words
    returned (
      span,
      record c3 { words = h; span_lists = set_list i (span ∷ c3.span_lists i) c3.span_lists },
    )

  unfoldable pub get_one_span : ℕ → ℕ → Pool → Run (ℕ × Pool)
  get_one_span i size c = elim (usable_span (c.span_lists i) c) [
    | some span ↦ returned (span, c)
    | none ↦ fill_bucket i size c
  ]

  -- `fetch_range_obj`: `start`, `end` and the number of objects.
  unfoldable pub fetch_range_obj : ℕ → ℕ → Pool → Run ((ℕ × ℕ × ℕ) × Pool)
  fetch_range_obj num size c = do
    i ← asserted (index size)
    (span, c1) ← get_one_span i size c
    let start = (c1.spans span).objlist
    asserting (not (span == 0)) (
        asserting (not (start == 0)) (do
          let (actual, end) = take_objects (sub_size num 1) 1 start c1.words
          let s = c1.spans span
          let c2 =
              set_span span
                (record s { objlist = c1.words end; usecount = add_size s.usecount actual }) c1
          h ← store end 0 c2.words
          returned ((start, end, actual), record c2 { words = h })))

-- A span whose objects are all back leaves its bucket for the page cache.
unfoldable pub retire_span : ℕ → ℕ → Pool → Run Pool
retire_span i span c =
    if has span (c.span_lists i)
    then release_to_page_cache span (
        set_span span (record (c.spans span) { objlist = 0 })
          (record c { span_lists = set_list i (erase span (c.span_lists i)) c.span_lists }))
    else stray

-- One object goes back to its span.
unfoldable pub give_back : ℕ → ℕ → Pool → Run Pool
give_back i obj c = do
  span ← map_object_to_span obj c
  let s = c.spans span
  h ← store obj s.objlist c.words
  let c1 =
      set_span span (record s { objlist = obj; usecount = sub_size s.usecount 1 })
        (record c { words = h })
  if (c1.spans span).usecount == 0 then retire_span i span c1 else returned c1

-- The loop of `release_list_to_Spans`.
unfoldable pub release_objects : ℕ → ℕ → ℕ → Pool → Run Pool
release_objects zero i start c = out_of_fuel
release_objects (suc fuel) i start c = elim (start == 0) [
  | true ↦ returned c
  | false ↦ let next = c.words start in give_back i start c >>= release_objects fuel i next
]

-- `release_list_to_Spans` of a chain of at most `limit` objects.
unfoldable pub release_list_to_spans : ℕ → ℕ → ℕ → Pool → Run Pool
release_list_to_spans limit start size c =
    asserted (index size) >>= λ i. release_objects (suc limit) i start c
