-- ===== src/Memory/PageCache/Tests.antt =====
-- Requests to an empty page cache.
use network_library.Prelude.{
  ℕ, ◌+◌, ◌*◌, ◌≡◌, refl, true, false, List, [], ◌∷◌, some, arith, ◌==◌, if◌then◌else◌,
}
use network_library.Memory.Heap.{returned, ◌>>=◌}
use network_library.Memory.PageCache.{
  Pool, empty_pool, page_id, erase_page_list, delete_span_object,
}
use network_library.Memory.PageCache.Spans.{new_span}
use network_library.Memory.ObjectPool.{delete_object}
use network_library.Memory.PageMap.{get, set, leaf_of}
use network_library.Memory.PageCache.Merge.{release_to_page_cache, merge_before, merge_behind, hang}
use network_library.Memory.PageCache.Merging.{IsSane, has_ended, release_to_page_cache-has_ended}
use network_library.Memory.PageCache.Buckets.{Stocked}
use network_library.Memory.PageCache.Supply.{Supplied}
use network_library.Memory.PageCache.Request.{new_span-Supplied}

-- Blocks of 128 pages, and blocks for spans.
abbrev page_memory : ℕ → ℕ
page_memory i = 0x1000_0000 + i * 0x10_0000

abbrev pool_memory : ℕ → ℕ
pool_memory i = 0x100_0000 + i * 0x2_0000

empty_pool-Stocked : Stocked pool_memory empty_pool []
empty_pool-Stocked = record {
  free = [];
  owned = record {
    chain = refl;
    apart = refl;
    below = refl;
    inside = omega arith;
    block = λ more. absurd (omega (arith, more));
  };
  known = λ i s h. cc;
  each = λ i s h. cc;
  apart = λ i. refl;
}

-- A free span of three pages from page 8 on, and behind it the span of three pages at the address 128.
abbrev neighbours : Pool
neighbours = record empty_pool {
  words = λ p. if p == 64 then 8 else 11;
  spans = λ _. record { npage = 3; objlist = 0; objsize = 0; usecount = 0; is_use = false };
  page_lists = λ n. if n == 3 then 64 ∷ [] else [];
  id_span_map = record {
    root = λ _. some (λ _. some (λ page. if page == 10 then 64 else 0));
    bytes_used = 0;
  };
}

neighbours-IsSane : IsSane neighbours.spans neighbours.id_span_map
neighbours-IsSane = record { some_pages = λ page h. omega arith; bounded = λ page h. omega arith }

merged_pages :
    ◌>>=◌ {B = ℕ × ℕ × List ℕ}
      (release_to_page_cache 128 neighbours)
      (λ c. returned ((c.spans 128).npage, page_id 128 c, c.page_lists 6))
    ≡ returned (6, 8, 128 ∷ [])
unfolding release_to_page_cache merge_before merge_behind hang erase_page_list delete_span_object
    delete_object get leaf_of set
merged_pages = refl

new_span-Supplied_example :
    Supplied pool_memory 3 [] (new_span page_memory pool_memory 2 3 empty_pool)
new_span-Supplied_example =
    new_span-Supplied page_memory pool_memory (omega arith) (λ i. omega arith) 2 (omega arith)
      (omega arith) empty_pool-Stocked

release_to_page_cache-has_ended_example : has_ended (release_to_page_cache 128 neighbours) ≡ true
release_to_page_cache-has_ended_example =
    release_to_page_cache-has_ended 128 neighbours neighbours-IsSane
