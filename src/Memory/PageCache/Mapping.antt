-- ===== src/Memory/PageCache/Mapping.antt =====
-- src/memory/PageCache.cc: the loops that map the pages of a span.
use network_library.Prelude.{ℕ, zero, suc, ◌+◌, ◌^◌, ◌≤◌, ◌<◌, ◌≡◌, refl, ap, ◌∙◌, true, arith}
use network_library.Prelude.Words.{add_size}
use network_library.Memory.Heap.{Run, returned, ◌>>=◌}
use network_library.Memory.PageMap.{PageMap, bits, get}
use network_library.Memory.PageMap.Leaves.{has_leaf, get-set}
use network_library.Memory.PageCache.{Pool, map_page, map_pages}
use network_library.Memory.PageCache.Buckets.{remapped}

-- Every page from `page` on, `n` of them, is a page number with a leaf.
pub record Leafy (page n : ℕ) (m : PageMap) : Type 0 where
  pub leafy : (j : ℕ) → page ≤ j → j < page + n → has_leaf j m ≡ true
  pub low : page + n ≤ 2 ^ bits

-- What it is to map some pages to `span`: the run returns, leaves stay, pages of the span remain so, and the page
-- `first` is one.
pub record Maps (first span : ℕ) (c : Pool) (r : Run Pool) : Type 0 where
  pub m : PageMap
  pub returns : r ≡ returned (remapped m c)
  pub leaves : (j : ℕ) → has_leaf j m ≡ has_leaf j c.id_span_map
  pub remains : (j : ℕ) → get j c.id_span_map ≡ span → get j m ≡ span
  pub found : get first m ≡ span

pub map_page-Maps :
    (page span : ℕ) (c : Pool)
    → page < 2 ^ bits
    → has_leaf page c.id_span_map ≡ true
    → Maps page span c (map_page page span c)
map_page-Maps page span c small leaf =
    let (m, done, at, leaves) = get-set page span c.id_span_map small leaf in
    record {
      m = m;
      returns = rw done refl;
      leaves = leaves;
      remains = λ j h. ground (arith, at j, h);
      found = ground (arith, at page);
    }

-- At least one round of the loop, with a step of 0 or 1.
pub map_pages-Maps :
    (stride n page span : ℕ) (c : Pool)
    → stride ≤ 1
    → Leafy page (suc n) c.id_span_map
    → Maps page span c (map_pages stride (suc n) page span c)
unfolding map_pages
map_pages-Maps stride zero page span c one l =
    let once =
      map_page-Maps page span c (omega (arith, l.low)) (l.leafy page (omega arith) (omega arith)) in
    record {
      m = once.m;
      returns = ap (λ r. r >>= map_pages stride zero (add_size page stride) span) once.returns;
      leaves = once.leaves;
      remains = once.remains;
      found = once.found;
    }
map_pages-Maps stride (suc n) page span c one l =
    let first =
      map_page-Maps page span c (omega (arith, l.low)) (l.leafy page (omega arith) (omega arith)) in
    let next : add_size page stride ≡ page + stride = omega (arith, one, l.low) in
    let rest =
      map_pages-Maps stride n (add_size page stride) span (remapped first.m c) one (record {
        leafy = λ j a b.
            first.leaves j ∙ l.leafy j (omega (arith, next, a)) (omega (arith, next, b, one));
        low = omega (arith, next, one, l.low);
      }) in
    record {
      m = rest.m;
      returns =
          ap (λ r. r >>= map_pages stride (suc n) (add_size page stride) span) first.returns
          ∙ rest.returns;
      leaves = λ j. rest.leaves j ∙ first.leaves j;
      remains = λ j h. rest.remains j (first.remains j h);
      found = rest.remains page first.found;
    }
