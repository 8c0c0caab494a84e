-- ===== src/Memory/PageCache/Merging.antt =====
-- src/memory/PageCache.cc: the loops of relase_to_PageCache end.
use network_library.Prelude.{
  ℕ, zero, suc, ◌+◌, ◌^◌, ◌≤◌, ◌<◌, ◌≡◌, refl, Bool, true, false, arith, List, leb, ◌==◌,
  Bool-cases, inl, inr,
}
use network_library.Prelude.Words.{add_size, sub_size}
use network_library.Memory.SizeClass.{npages}
use network_library.Memory.Heap.{
  Run, returned, null_access, aborted, stray, out_of_fuel, ◌>>=◌, has,
}
use network_library.Memory.PageMap.{PageMap, get, set}
use network_library.Memory.PageCache.{
  Span, Pool, page_id, set_page_id, erase_page_list, delete_span_object, map_page,
}
use network_library.Memory.PageCache.Merge.{
  stays, lengthen, merge_before, merge_behind, hang, release_to_page_cache,
}

-- Every span that a page is mapped to has at least one page, and no more than there is memory.
pub record IsSane (spans : ℕ → Span) (m : PageMap) : Type 0 where
  pub some_pages : (page : ℕ) → (get page m == 0) ≡ false → 0 < (spans (get page m)).npage
  pub bounded : (page : ℕ) → (get page m == 0) ≡ false → (spans (get page m)).npage < 2 ^ 51

-- The loop ends with a span that the buckets can hold, or with the erasure of a span that is not in its bucket.
data Merged (span : ℕ) : Run Pool → Type 0 where
  merged :
      (c : Pool)
      → IsSane c.spans c.id_span_map
      → (c.spans span).npage < npages
      → Merged span (returned c)
  strays : Merged span stray

-- An erasure gives the pool with one list changed, or strays.
after_erase :
    (span n ret : ℕ) (c : Pool) (f : Pool → Run Pool)
    → ((lists : ℕ → List ℕ) → Merged span (f (record c { page_lists = lists })))
    → Merged span (erase_page_list n ret c >>= f)
unfolding erase_page_list
after_erase span n ret c f h = elim (Bool-cases (has ret (c.page_lists n))) [
  | inl there ↦ rw (there, erase_page_list) (h _)
  | inr gone ↦ rw (gone, erase_page_list) strays
]

-- A neighbour that does not stay makes the span longer by its pages, which the buckets can still hold.
lengthen-IsSane :
    (span page : ℕ) (c : Pool)
    → IsSane c.spans c.id_span_map
    → (c.spans span).npage < npages
    → stays (get page c.id_span_map) span c ≡ false
    → let n = (c.spans (get page c.id_span_map)).npage in
      let c' = lengthen span n c in
      IsSane c'.spans c'.id_span_map
      × ((c'.spans span).npage < npages)
      × ((c.spans span).npage < (c'.spans span).npage)
lengthen-IsSane span page c v short joins =
    let there : (get page c.id_span_map == 0) ≡ false = ground (arith, joins) in
    let n = (c.spans (get page c.id_span_map)).npage in
    let old = (c.spans span).npage in
    let more = v.some_pages page there in
    let few = v.bounded page there in
    let fits : add_size n old < npages = ground (arith, joins) in
    let sum : add_size old n ≡ old + n = omega (arith, few, short) in
    let own : (span == span) ≡ true = ground arith in
    (
      record {
        some_pages = λ p h. ground (arith, sum, more, v.some_pages p h);
        bounded = λ p h. ground (arith, sum, fits, few, short, v.bounded p h);
      },
      rw own (omega (arith, sum, fits, few, short)),
      rw own (omega (arith, sum, more)),
    )

merge_before-Merged :
    (fuel span : ℕ) (c : Pool)
    → IsSane c.spans c.id_span_map
    → (c.spans span).npage < npages
    → npages ≤ (c.spans span).npage + fuel
    → Merged span (merge_before fuel span c)
unfolding merge_before delete_span_object
merge_before-Merged zero span c v short enough = absurd (omega (arith, short, enough))
merge_before-Merged (suc fuel) span c v short enough =
    let page = sub_size (page_id span c) 1 in
    let ret = get page c.id_span_map in
    let n = (c.spans ret).npage in
    let c0 = set_page_id span (page_id ret c) c in
    elim (Bool-cases (stays ret span c)) [
      | inl stay ↦ rw (stay, merge_before) (merged c v short)
      | inr joins ↦
          let (w, still, longer) = lengthen-IsSane span page c0 v short joins in
          rw (joins, merge_before)
            (after_erase span n ret (lengthen span n c0) _ (λ lists.
              merge_before-Merged fuel span
                (delete_span_object ret (record (lengthen span n c0) { page_lists = lists })) w
                still (omega (arith, longer, enough))))
    ]

merge_behind-Merged :
    (fuel span : ℕ) (c : Pool)
    → IsSane c.spans c.id_span_map
    → (c.spans span).npage < npages
    → npages ≤ (c.spans span).npage + fuel
    → Merged span (merge_behind fuel span c)
unfolding merge_behind delete_span_object
merge_behind-Merged zero span c v short enough = absurd (omega (arith, short, enough))
merge_behind-Merged (suc fuel) span c v short enough =
    let page = add_size (page_id span c) (c.spans span).npage in
    let ret = get page c.id_span_map in
    let n = (c.spans ret).npage in
    elim (Bool-cases (stays ret span c)) [
      | inl stay ↦ rw (stay, merge_behind) (merged c v short)
      | inr joins ↦
          let (w, still, longer) = lengthen-IsSane span page c v short joins in
          rw (joins, merge_behind)
            (after_erase span n ret (lengthen span n c) _ (λ lists.
              merge_behind-Merged fuel span
                (delete_span_object ret (record (lengthen span n c) { page_lists = lists })) w still
                (omega (arith, longer, enough))))
    ]

-- The run has not run out of fuel.
abbrev pub has_ended : {A : Type 0} → Run A → Bool
has_ended out_of_fuel = false
has_ended _ = true

bind-has_ended :
    {A B : Type 0} (r : Run A) (f : A → Run B)
    → has_ended r ≡ true
    → ((a : A) → has_ended (f a) ≡ true)
    → has_ended (r >>= f) ≡ true
bind-has_ended (returned a) f h k = k a
bind-has_ended null_access f h k = refl
bind-has_ended aborted f h k = refl
bind-has_ended stray f h k = refl
bind-has_ended out_of_fuel f h k = cc

map_page-has_ended : (page span : ℕ) (c : Pool) → has_ended (map_page page span c) ≡ true
unfolding set
map_page-has_ended page span c = ground arith

hang-has_ended : (span : ℕ) (c : Pool) → has_ended (hang span c) ≡ true
unfolding hang
hang-has_ended span c =
    bind-has_ended _ _ (map_page-has_ended _ span _) (λ c3. map_page-has_ended _ span c3)

Merged-has_ended : (span : ℕ) (r : Run Pool) → Merged span r → has_ended r ≡ true
Merged-has_ended span _ (merged c v short) = refl
Merged-has_ended span _ strays = refl

-- What follows a loop ends if it ends on what the loop can return.
after_merge :
    (span : ℕ) (r : Run Pool) (f : Pool → Run Pool)
    → Merged span r
    → ((c : Pool)
        → IsSane c.spans c.id_span_map
        → (c.spans span).npage < npages
        → has_ended (f c) ≡ true)
    → has_ended (r >>= f) ≡ true
after_merge span _ f (merged c v short) k = k c v short
after_merge span _ f strays k = refl

-- relase_to_PageCache ends for every span, where every span in the page map has between one page and as many as there
-- is memory: the rounds that its loops are given are enough.
pub release_to_page_cache-has_ended :
    (span : ℕ) (c : Pool)
    → IsSane c.spans c.id_span_map
    → has_ended (release_to_page_cache span c) ≡ true
unfolding release_to_page_cache
release_to_page_cache-has_ended span c v = elim (Bool-cases (leb npages (c.spans span).npage)) [
  | inl large ↦ rw (large, release_to_page_cache) refl
  | inr short ↦
      let few : (c.spans span).npage < npages = ground (arith, short) in
      rw (short, release_to_page_cache)
        (bind-has_ended (merge_before npages span c >>= merge_behind npages span) (hang span)
          (after_merge span (merge_before npages span c) (merge_behind npages span)
            (merge_before-Merged npages span c v few (omega arith))
            (λ c1 w still.
              Merged-has_ended span (merge_behind npages span c1)
                (merge_behind-Merged npages span c1 w still (omega arith))))
          (λ c2. hang-has_ended span c2))
]
