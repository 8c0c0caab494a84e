-- ===== src/Memory/PageCache/Merge.antt =====
-- src/memory/PageCache.cc: relase_to_PageCache, which joins a span to the free spans before and behind it.
use network_library.Prelude.{ℕ, zero, suc, Bool, true, false, ◌||◌, leb, ◌==◌}
use network_library.Prelude.Words.{add_size, sub_size}
use network_library.Memory.SizeClass.{npages}
use network_library.Memory.Heap.{Run, returned, out_of_fuel, ◌>>=◌}
use network_library.Memory.PageMap.{get}
use network_library.Memory.PageCache.{
  Pool, page_id, set_page_id, set_span, push_page_list, erase_page_list, map_page,
  delete_span_object,
}

-- A neighbour that stays: none, one in use, or one that makes the span too long for the buckets.
abbrev pub stays : ℕ → ℕ → Pool → Bool
stays ret span c =
    ret == 0
    || (c.spans ret).is_use
    || leb npages (add_size (c.spans ret).npage (c.spans span).npage)

abbrev pub lengthen : ℕ → ℕ → Pool → Pool
lengthen span n c =
    set_span span (record (c.spans span) { npage = add_size (c.spans span).npage n }) c

-- The loop that joins the spans before. A span has at most 128 pages, and each round adds some.
unfoldable pub merge_before : ℕ → ℕ → Pool → Run Pool
merge_before zero span c = out_of_fuel
merge_before (suc fuel) span c =
    let ret = get (sub_size (page_id span c) 1) c.id_span_map in
    elim (stays ret span c) [
      | true ↦ returned c
      | false ↦
          let n = (c.spans ret).npage in
          let c1 = lengthen span n (set_page_id span (page_id ret c) c) in
          erase_page_list n ret c1 >>= λ c2. merge_before fuel span (delete_span_object ret c2)
    ]

-- The loop that joins the spans behind.
unfoldable pub merge_behind : ℕ → ℕ → Pool → Run Pool
merge_behind zero span c = out_of_fuel
merge_behind (suc fuel) span c =
    let ret = get (add_size (page_id span c) (c.spans span).npage) c.id_span_map in
    elim (stays ret span c) [
      | true ↦ returned c
      | false ↦
          let n = (c.spans ret).npage in
          erase_page_list n ret (lengthen span n c) >>= λ c2.
          merge_behind fuel span (delete_span_object ret c2)
    ]

-- The span goes into its bucket, and its first and last pages are mapped to it.
unfoldable pub hang : ℕ → Pool → Run Pool
hang span c = do
  let n = (c.spans span).npage
  let c1 = push_page_list n span c
  let c2 = set_span span (record (c1.spans span) { is_use = false }) c1
  c3 ← map_page (page_id span c2) span c2
  map_page (sub_size (add_size (page_id span c3) n) 1) span c3

-- `relase_to_PageCache`. The memory of a large span goes back to the system.
unfoldable pub release_to_page_cache : ℕ → Pool → Run Pool
release_to_page_cache span c = elim (leb npages (c.spans span).npage) [
  | true ↦ returned (delete_span_object span c)
  | false ↦ merge_before npages span c >>= merge_behind npages span >>= hang span
]
