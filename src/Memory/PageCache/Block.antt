-- ===== src/Memory/PageCache/Block.antt =====
-- src/memory/PageCache.cc: new_Span, when it takes a new block from the system.
use network_library.Prelude.{
  ℕ, suc, ◌+◌, ◌-◌, ◌*◌, ◌/◌, ◌^◌, ◌≤◌, ◌<◌, ◌≡◌, refl, sym, ap, subst, Bool, true, false, List,
  ◌∷◌, arith, Option, none, some, ◌==◌,
}
use network_library.Memory.SizeClass.{npages, page_shift}
use network_library.Memory.Heap.{has}
use network_library.Memory.ObjectPool.{block_bytes}
use network_library.Memory.PageMap.{PageMap, bits, ensure}
use network_library.Memory.PageMap.Range.{ensure-Covers}
use network_library.Memory.PageCache.{Span, Pool, page_id, set_page_id, set_span, push_page_list}
use network_library.Memory.PageCache.Spans.{new_span_object, hang_block, grow}
use network_library.Memory.PageCache.Buckets.{
  Stocked, Absent, remapped, remapped-Stocked, hung-Stocked, set_page_id-Stocked, set_span-Stocked,
  new_span_object-Stocked,
}

module _ (page_memory pool_memory : ℕ → ℕ) (positive : 0 < pool_memory 0)
    (grows : (i : ℕ) → pool_memory i + block_bytes ≤ pool_memory (suc i)) where
  -- A new block, whose pages are page numbers of the map.
  hang_block-Stocked :
      {c : Pool} {live : List ℕ} (span first : ℕ)
      → first + 2 ^ 20 ≤ 2 ^ bits
      → Stocked pool_memory c live
      → Absent span c
      → has span live ≡ true
      → (c.spans span).is_use ≡ false
      → Stocked pool_memory (hang_block span first c) live
        × ((hang_block span first c).page_lists (npages - 1) ≡ span ∷ c.page_lists (npages - 1))
  unfolding hang_block
  hang_block-Stocked {c} {live} span first low v out own idle =
      let same : (span == span) ≡ true = ground arith in
      let fields : Span = record (c.spans span) {
        npage = npages - 1;
        objsize = (npages - 1) * 2 ^ page_shift;
      } in
      let c2 = set_span span fields (set_page_id span first c) in
      let v2 =
        set_span-Stocked pool_memory positive grows span fields
          (set_page_id-Stocked pool_memory positive grows span first v out own) out in
      let (m, e, covers) = ensure-Covers first (2 ^ 20) c.id_span_map low (omega arith) in
      let v3 = remapped-Stocked pool_memory positive grows m covers.keeps v2 in
      let c3 = push_page_list (npages - 1) span (remapped m c2) in
      let ensured : ensure (page_id span c2) (c2.spans span).objsize c2.id_span_map
          ≡ some (true, m) =
        rw same e in
      let run : hang_block span first c ≡ c3 =
        ap {A = Option (Bool × PageMap)}
          (λ r.
            push_page_list (npages - 1) span (elim r [ none ↦ c2 | some (_, m1) ↦ remapped m1 c2 ]))
          ensured in
      let v4 : Stocked pool_memory c3 live =
        hung-Stocked pool_memory positive grows (npages - 1) span v3 out own (record {
          length = rw same refl;
          idle = rw same idle;
          leafy = rw same (λ j a b. covers.covers j a (omega (arith, b)));
          low = rw same (omega (arith, low));
        }) in
      (
        subst (λ p. Stocked pool_memory p live) (sym run) v4,
        ap (λ p. p.page_lists (npages - 1)) run,
      )

  pub grow-Stocked :
      {c : Pool} {live : List ℕ}
      → page_memory c.page_calls / 2 ^ page_shift + 2 ^ 20 ≤ 2 ^ bits
      → Stocked pool_memory c live
      → (span : ℕ) × Stocked pool_memory (grow page_memory pool_memory c) (span ∷ live)
        × ((grow page_memory pool_memory c).page_lists (npages - 1)
            ≡ span ∷ c.page_lists (npages - 1))
  unfolding grow new_span_object
  grow-Stocked {c} {live} low v =
      let (new, v1) = new_span_object-Stocked pool_memory positive grows page_memory v in
      let span = (new_span_object page_memory pool_memory c).0 in
      let c2 : Pool = record (new_span_object page_memory pool_memory c).1 {
        page_calls = suc c.page_calls;
      } in
      let v2 : Stocked pool_memory c2 (span ∷ live) = record {
        free = v1.free;
        owned = v1.owned;
        known = v1.known;
        each = v1.each;
        apart = v1.apart;
      } in
      let (w, front) =
        hang_block-Stocked span (page_memory c.page_calls / 2 ^ page_shift) low v2 new
          (ground arith) (ground arith) in
      (span, w, front)
