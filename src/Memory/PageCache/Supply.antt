-- ===== src/Memory/PageCache/Supply.antt =====
-- src/memory/PageCache.cc: new_Span keeps the buckets and supplies a span of the number of pages that it is asked for.
use network_library.Prelude.{
  ℕ, suc, ◌+◌, ◌-◌, ◌^◌, ◌≤◌, ◌<◌, ◌≡◌, refl, sym, ap, ◌∙◌, subst, true, false, List, ◌∷◌, arith,
  ◌==◌,
}
use network_library.Prelude.Words.{add_size, sub_size, size_mod}
use network_library.Memory.SizeClass.{npages}
use network_library.Memory.Heap.{Run, returned, has}
use network_library.Memory.ObjectPool.{block_bytes}
use network_library.Memory.PageMap.{bits, get}
use network_library.Memory.PageCache.{Pool, page_id, set_list, push_page_list}
use network_library.Memory.PageCache.Spans.{
  new_span_object, whole_span, split_span, cut_front, map_parts,
}
use network_library.Memory.PageCache.Buckets.{
  Stocked, IsFree, Absent, remapped, relisted, remapped-Stocked, front-Absent, front-Stocked,
  hung-Stocked, set_page_id-Stocked, set_span-Stocked, new_span_object-Stocked, other_span,
}
use network_library.Memory.PageCache.Mapping.{Leafy, map_page-Maps, map_pages-Maps}

-- The run returns a span of `num` pages that is in no bucket, to which its first page is mapped, and the page cache is
-- stocked.
pub record Supplied (pool_memory : ℕ → ℕ) (num : ℕ) (live : List ℕ) (r : Run (ℕ × Pool))
    : Type 0 where
  pub span : ℕ
  pub after : Pool
  pub live' : List ℕ
  pub returns : r ≡ returned (span, after)
  pub stocked : Stocked pool_memory after live'
  pub own : has span live' ≡ true
  pub keeps : (s : ℕ) → has s live ≡ true → has s live' ≡ true
  pub out : Absent span after
  pub length : (after.spans span).npage ≡ num
  pub found : get (page_id span after) after.id_span_map ≡ span

pushed-out :
    (s x n : ℕ) (lists : ℕ → List ℕ)
    → (x == s) ≡ false
    → ((j : ℕ) → has s (lists j) ≡ false)
    → (j : ℕ) → has s (set_list n (x ∷ lists n) lists j) ≡ false
pushed-out s x n lists other out j = ground (arith, other, out j, out n)

relisted-out :
    (s n : ℕ) (rest : List ℕ) (lists : ℕ → List ℕ)
    → has s rest ≡ false
    → ((j : ℕ) → has s (lists j) ≡ false)
    → (j : ℕ) → has s (set_list n rest lists j) ≡ false
relisted-out s n rest lists gone out j = ground (arith, gone, out j)

has-front : (s : ℕ) (xs : List ℕ) (rest : List ℕ) → xs ≡ s ∷ rest → has s xs ≡ true
has-front s xs rest e = rw e (ground arith)

-- What a cut leaves of the two spans.
record Cut (num num_span n_span : ℕ) (c c' : Pool) : Type 0 where
  first : page_id num_span c' ≡ page_id n_span c
  num_length : (c'.spans num_span).npage ≡ num
  start : page_id n_span c' ≡ page_id n_span c + num
  left : (c'.spans n_span).npage + num ≡ (c.spans n_span).npage
  idle : (c'.spans n_span).is_use ≡ (c.spans n_span).is_use

cut_front-Cut :
    (num num_span n_span : ℕ) (c : Pool)
    → (n_span == num_span) ≡ false
    → page_id n_span c + num ≤ 2 ^ bits
    → num ≤ (c.spans n_span).npage
    → (c.spans n_span).npage < size_mod
    → Cut num num_span n_span c (cut_front num num_span n_span c)
unfolding cut_front
cut_front-Cut num num_span n_span c other low enough small =
    let back : (num_span == n_span) ≡ false = ground (arith, other) in
    let own : (num_span == num_span) ≡ true = ground arith in
    let own_n : (n_span == n_span) ≡ true = ground arith in
    record {
      first = rw (back, own) refl;
      num_length = rw (back, own) refl;
      start = rw (own_n, other) (omega (arith, low));
      left = rw (own_n, other) (omega (arith, enough, small));
      idle = rw (own_n, other) refl;
    }

module _ (page_memory pool_memory : ℕ → ℕ) (positive : 0 < pool_memory 0)
    (grows : (i : ℕ) → pool_memory i + block_bytes ≤ pool_memory (suc i)) where
  pub whole-Supplied :
      {c : Pool} {live : List ℕ} (n span : ℕ) (rest : List ℕ)
      → c.page_lists (suc n) ≡ span ∷ rest
      → Stocked pool_memory c live
      → Supplied pool_memory (suc n) live (whole_span page_memory pool_memory (suc n) span rest c)
  unfolding whole_span
  whole-Supplied {c} {live} n span rest e v =
      let here : has span (c.page_lists (suc n)) ≡ true =
        has-front span (c.page_lists (suc n)) rest e in
      let f = v.each (suc n) span here in
      let c1 = relisted (suc n) rest c in
      let maps =
        map_pages-Maps 0 n (page_id span c1) span c1 (omega arith)
          (record { leafy = f.leafy; low = f.low }) in
      record {
        span = span;
        after = remapped maps.m c1;
        live' = live;
        returns = rw (f.length, maps.returns) refl;
        stocked =
            remapped-Stocked pool_memory positive grows maps.m (λ j h. maps.leaves j ∙ h)
              (front-Stocked pool_memory positive grows (suc n) span rest e v);
        own = v.known (suc n) span here;
        keeps = λ s h. h;
        out = front-Absent pool_memory positive grows (suc n) span rest e v;
        length = f.length;
        found = maps.found;
      }

  -- The last part of a split, with the pages of both spans.
  map_parts-Supplied :
      {c : Pool} {live : List ℕ} (n num_span n_span : ℕ)
      → Stocked pool_memory c live
      → Absent num_span c
      → has num_span live ≡ true
      → (c.spans num_span).npage ≡ suc n
      → Leafy (page_id num_span c) (suc n) c.id_span_map
      → 0 < (c.spans n_span).npage
      → Leafy (page_id n_span c) (c.spans n_span).npage c.id_span_map
      → Supplied pool_memory (suc n) live (map_parts (suc n) num_span n_span c)
  unfolding map_parts
  map_parts-Supplied {c} {live} n num_span n_span v out own length l some_left r =
      let left = (c.spans n_span).npage in
      let last_page = sub_size (add_size (page_id n_span c) left) 1 in
      let last : last_page ≡ page_id n_span c + left - 1 = omega (arith, some_left, r.low) in
      let m6 =
        map_page-Maps (page_id n_span c) n_span c (omega (arith, some_left, r.low))
          (r.leafy (page_id n_span c) (omega arith) (omega (arith, some_left))) in
      let c6 = remapped m6.m c in
      let m7 = map_page-Maps last_page n_span c6 (omega (arith, last, r.low, some_left)) (
        m6.leaves last_page
        ∙ r.leafy last_page (omega (arith, last, some_left)) (omega (arith, last, some_left))) in
      let c7 = remapped m7.m c6 in
      let m8 =
        map_pages-Maps 1 n (page_id num_span c7) num_span c7 (omega arith)
          (record { leafy = λ j a b. m7.leaves j ∙ m6.leaves j ∙ l.leafy j a b; low = l.low }) in
      record {
        span = num_span;
        after = remapped m8.m c7;
        live' = live;
        returns = rw m6.returns (rw m7.returns (rw (length, m8.returns) refl));
        stocked =
            remapped-Stocked pool_memory positive grows m8.m
              (λ j h. m8.leaves j ∙ m7.leaves j ∙ m6.leaves j ∙ h) v;
        own = own;
        keeps = λ s h. h;
        out = out;
        length = length;
        found = m8.found;
      }

  cut_front-Stocked :
      {c : Pool} {live : List ℕ} (num num_span n_span : ℕ)
      → Stocked pool_memory c live
      → Absent num_span c
      → has num_span live ≡ true
      → Absent n_span c
      → has n_span live ≡ true
      → Stocked pool_memory (cut_front num num_span n_span c) live
  unfolding cut_front
  cut_front-Stocked num num_span n_span v out own out_n own_n =
      set_span-Stocked pool_memory positive grows n_span _
        (set_page_id-Stocked pool_memory positive grows n_span _
          (set_span-Stocked pool_memory positive grows num_span _
            (set_page_id-Stocked pool_memory positive grows num_span _ v out own) out)
          out_n own_n)
        out_n

  -- A span taken from its bucket, of which `num_span` gets a part.
  divide-Supplied :
      {c : Pool} {live : List ℕ} (n num_span n_span left : ℕ)
      → Stocked pool_memory c live
      → Absent num_span c
      → has num_span live ≡ true
      → Absent n_span c
      → has n_span live ≡ true
      → (n_span == num_span) ≡ false
      → 0 < left
      → left + suc n < npages
      → IsFree c.spans c.words c.id_span_map (left + suc n) n_span
      → Supplied pool_memory (suc n) live (
          let c2 = cut_front (suc n) num_span n_span c in
          map_parts (suc n) num_span n_span (push_page_list (c2.spans n_span).npage n_span c2))
  unfolding cut_front
  divide-Supplied {c} {live} n num_span n_span left v out own out_n own_n other some_left few f =
      let cut =
        cut_front-Cut (suc n) num_span n_span c other (omega (arith, f.low))
          (omega (arith, f.length)) (omega (arith, f.length, few)) in
      let c2 = cut_front (suc n) num_span n_span c in
      let rest : (c2.spans n_span).npage ≡ left = omega (arith, cut.left, f.length) in
      let v2 = cut_front-Stocked (suc n) num_span n_span v out own out_n own_n in
      let free : IsFree c2.spans c2.words c2.id_span_map (c2.spans n_span).npage n_span = record {
        length = refl;
        idle = cut.idle ∙ f.idle;
        leafy =
            λ j a b. f.leafy j (omega (arith, cut.start, a)) (omega (arith, cut.start, b, rest));
        low = omega (arith, cut.start, rest, f.low);
      } in
      map_parts-Supplied n num_span n_span
        (hung-Stocked pool_memory positive grows (c2.spans n_span).npage n_span v2 out_n own_n free)
        (pushed-out num_span n_span (c2.spans n_span).npage c2.page_lists other out) own
        cut.num_length
        (record {
          leafy = λ j a b. f.leafy j (omega (arith, cut.first, a)) (omega (arith, cut.first, b));
          low = omega (arith, cut.first, f.low);
        })
        (omega (arith, rest, some_left)) (record { leafy = free.leafy; low = free.low })

  pub split-Supplied :
      {c : Pool} {live : List ℕ} (n i n_span : ℕ) (rest : List ℕ)
      → c.page_lists i ≡ n_span ∷ rest
      → suc n < i
      → i < npages
      → Stocked pool_memory c live
      → Supplied pool_memory
          (suc n)
          live
          (split_span page_memory pool_memory (suc n) i n_span rest c)
  unfolding split_span new_span_object
  split-Supplied {c} {live} n i n_span rest e shorter few v =
      let (new, v1) = new_span_object-Stocked pool_memory positive grows page_memory v in
      let num_span = (new_span_object page_memory pool_memory c).0 in
      let here : has n_span (c.page_lists i) ≡ true = has-front n_span (c.page_lists i) rest e in
      let other : (n_span == num_span) ≡ false =
        other_span n_span num_span (c.page_lists i) here (new i) in
      let gone : has num_span rest ≡ false = ground (arith, ap (has num_span) (sym e) ∙ new i) in
      let size : i ≡ i - suc n + suc n = omega (arith, shorter) in
      let s =
        divide-Supplied {c = relisted i rest (new_span_object page_memory pool_memory c).1} n
          num_span n_span (i - suc n) (front-Stocked pool_memory positive grows i n_span rest e v1)
          (relisted-out num_span i rest c.page_lists gone new) (ground arith)
          (front-Absent pool_memory positive grows i n_span rest e v1) (v1.known i n_span here)
          other (omega (arith, shorter)) (omega (arith, shorter, few))
          (subst
            (λ k.
              IsFree (new_span_object page_memory pool_memory c).1.spans c.words c.id_span_map k
                n_span)
            size (v1.each i n_span here)) in
      record {
        span = s.span;
        after = s.after;
        live' = s.live';
        returns = s.returns;
        stocked = s.stocked;
        own = s.own;
        keeps = λ x h. s.keeps x (ground (arith, h));
        out = s.out;
        length = s.length;
        found = s.found;
      }
