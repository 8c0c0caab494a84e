-- ===== src/Memory/PageCache/Spans.antt =====
-- src/memory/PageCache.cc: new_Span and map_object_to_Span.
--
-- `page_memory` are the answers of `SystemAlloc_sbrk` to the page cache, in order, and `pool_memory` those to its span
-- pool.
use network_library.Prelude.{
  ℕ, zero, suc, ◌+◌, ◌-◌, ◌*◌, ◌/◌, ◌^◌, true, false, List, [], ◌∷◌, none, some, ltb, leb, not,
  ◌==◌,
}
use network_library.Prelude.Words.{add_size, sub_size}
use network_library.Memory.SizeClass.{npages, page_shift}
use network_library.Memory.Heap.{Run, returned, out_of_fuel, ◌>>=◌, asserting}
use network_library.Memory.ObjectPool.{new_object}
use network_library.Memory.PageMap.{get}
use network_library.Memory.PageCache.{
  Pool, span_size, page_id, set_page_id, set_span, set_list, push_page_list, map_page, map_pages,
  ensure_pages, initialised, first_bucket,
}

-- The pages and their numbers go over from `n_span` to `num_span`.
unfoldable pub cut_front : ℕ → ℕ → ℕ → Pool → Pool
cut_front num num_span n_span c =
    let c1 = set_page_id num_span (page_id n_span c) c in
    let c2 = set_span num_span (record (c1.spans num_span) { npage = num }) c1 in
    let c3 = set_page_id n_span (add_size (page_id n_span c2) num) c2 in
    set_span n_span (record (c3.spans n_span) { npage = sub_size (c3.spans n_span).npage num }) c3

-- The first and the last page of the rest, and all pages of `num_span`.
unfoldable pub map_parts : ℕ → ℕ → ℕ → Pool → Run (ℕ × Pool)
map_parts num num_span n_span c = do
  c1 ← map_page (page_id n_span c) n_span c
  c2 ← map_page (sub_size (add_size (page_id n_span c1) (c1.spans n_span).npage) 1) n_span c1
  c3 ← map_pages 1 (c2.spans num_span).npage (page_id num_span c2) num_span c2
  returned (num_span, c3)

-- A span gets the 128 pages from `first` on, and goes into the last bucket.
unfoldable pub hang_block : ℕ → ℕ → Pool → Pool
hang_block span first c =
    let c1 = set_page_id span first c in
    let c2 =
      set_span span
        (record (c1.spans span) { npage = npages - 1; objsize = (npages - 1) * 2 ^ page_shift })
        c1 in
    push_page_list (npages - 1) span (ensure_pages (page_id span c2) (c2.spans span).objsize c2)

module _ (page_memory pool_memory : ℕ → ℕ) where
  -- `_spanPool.New()`
  unfoldable pub new_span_object : Pool → ℕ × Pool
  new_span_object c =
      let (span, pool) = new_object pool_memory span_size c.words c.span_pool in
      (span, set_span span (initialised (c.spans span)) (record c { span_pool = pool }))

  -- `SystemAlloc_sbrk`
  abbrev pub new_pages : Pool → ℕ × Pool
  new_pages c = (page_memory c.page_calls, record c { page_calls = suc c.page_calls })

  -- A request for more pages than there are buckets.
  unfoldable pub large_span : ℕ → Pool → Run (ℕ × Pool)
  large_span num c =
      let (ptr, c1) = new_pages c in
      let (span, c2) = new_span_object c1 in
      let c3 = set_page_id span (ptr / 2 ^ page_shift) c2 in
      let c4 =
        set_span span (record (c3.spans span) { npage = num; objsize = num * 2 ^ page_shift }) c3 in
      map_page (page_id span c4) span c4 >>= λ c5. returned (span, c5)

  -- A span from its own bucket.
  unfoldable pub whole_span : ℕ → ℕ → List ℕ → Pool → Run (ℕ × Pool)
  whole_span num span rest c =
      let c1 = record c { page_lists = set_list num rest c.page_lists } in
      map_pages 0 (c1.spans span).npage (page_id span c1) span c1 >>= λ c2. returned (span, c2)

  -- The first pages of a longer span, from bucket `i`.
  unfoldable pub split_span : ℕ → ℕ → ℕ → List ℕ → Pool → Run (ℕ × Pool)
  split_span num i n_span rest c =
      let (num_span, c1) = new_span_object c in
      let c2 =
        cut_front num num_span n_span (record c1 { page_lists = set_list i rest c1.page_lists }) in
      map_parts num num_span n_span (push_page_list (c2.spans n_span).npage n_span c2)

  -- A block of 128 pages, into the last bucket.
  unfoldable pub grow : Pool → Pool
  grow c =
      let (span, c1) = new_span_object c in
      let (ptr, c2) = new_pages c1 in hang_block span (ptr / 2 ^ page_shift) c2

  -- `new_Span`, which calls itself once more when it has grown.
  unfoldable pub new_span : ℕ → ℕ → Pool → Run (ℕ × Pool)
  new_span zero num c = out_of_fuel
  new_span (suc fuel) num c = asserting (ltb 0 num) (elim (leb npages num) [
    | true ↦ large_span num c
    | false ↦ elim (c.page_lists num) [
      | span ∷ rest ↦ whole_span num span rest c
      | [] ↦ elim (first_bucket (npages - (num + 1)) (num + 1) c.page_lists) [
        | some (i, span, rest) ↦ split_span num i span rest c
        | none ↦ new_span fuel num (grow c)
      ]
    ]
  ])

unfoldable pub map_object_to_span : ℕ → Pool → Run ℕ
map_object_to_span obj c =
    let span = get (obj / 2 ^ page_shift) c.id_span_map in
    asserting (not (span == 0)) (returned span)
