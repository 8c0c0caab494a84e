-- ===== src/Memory/PageCache.antt =====
-- src/memory/PageCache.hpp, PageCache.cc and the Span and SpanList of src/memory/common.hpp: runs of pages, kept in
-- buckets by their length.
--
-- A span is its address. Its first word, `_pageid`, is the word of memory at that address, where the span pool links
-- the spans that it got back; the other fields are in `spans`. A SpanList is the list of its spans, front first. The
-- locks are left out: each function runs from its lock to its unlock.
pub mod Spans
pub mod Merge
pub mod Buckets
pub mod Mapping
pub mod Supply
pub mod Block
pub mod Request
pub mod Merging
mod Tests
use network_library.Prelude.{
  ℕ, zero, suc, ◌+◌, ◌-◌, ◌*◌, ◌/◌, ◌^◌, Bool, true, false, not, ◌&&◌, List, [], ◌∷◌, Option, none,
  some, ltb, leb, ◌==◌, if◌then◌else◌,
}
use network_library.Prelude.Words.{add_size, sub_size, size_mod}
use network_library.Memory.SizeClass.{npages, page_shift}
use network_library.Memory.Heap.{
  Heap, Run, returned, null_access, aborted, stray, ◌>>=◌, asserting, write, has,
}
use network_library.Memory.ObjectPool.{ObjectPool, new_pool, new_object, delete_object}
use network_library.Memory.PageMap.{PageMap, new_map, set, get, ensure}

pub record Span : Type 0 where
  pub npage : ℕ
  pub objlist : ℕ
  pub objsize : ℕ
  pub usecount : ℕ
  pub is_use : Bool

-- The allocator's memory, the page cache, and `_spanlist` of the central cache.
pub record Pool : Type 0 where
  pub words : Heap
  pub spans : ℕ → Span
  pub span_pool : ObjectPool
  pub page_lists : ℕ → List ℕ
  pub id_span_map : PageMap
  pub span_lists : ℕ → List ℕ
  pub page_calls : ℕ

-- The state at the start of a program.
abbrev pub empty_pool : Pool
empty_pool = record {
  words = λ _. 0;
  spans = λ _. record { npage = 0; objlist = 0; objsize = 0; usecount = 0; is_use = false };
  span_pool = new_pool;
  page_lists = λ _. [];
  id_span_map = new_map;
  span_lists = λ _. [];
  page_calls = 0;
}

-- `sizeof(Span)`
abbrev pub span_size : ℕ
span_size = 64

abbrev pub page_id : ℕ → Pool → ℕ
page_id span c = c.words span

abbrev pub set_page_id : ℕ → ℕ → Pool → Pool
set_page_id span v c = record c { words = write span v c.words }

abbrev pub set_span : ℕ → Span → Pool → Pool
set_span span fields c = record c { spans = λ p. if p == span then fields else c.spans p }

abbrev pub set_list : ℕ → List ℕ → (ℕ → List ℕ) → ℕ → List ℕ
set_list i spans lists j = if j == i then spans else lists j

-- `SpanList::erase`
abbrev pub erase : ℕ → List ℕ → List ℕ
erase span [] = []
erase span (x ∷ xs) = if span == x then xs else x ∷ erase span xs

-- `_pagelist[i].push_front(span)`
abbrev pub push_page_list : ℕ → ℕ → Pool → Pool
push_page_list i span c = record c { page_lists = set_list i (span ∷ c.page_lists i) c.page_lists }

-- `_pagelist[i].erase(span)`
unfoldable pub erase_page_list : ℕ → ℕ → Pool → Run Pool
erase_page_list i span c =
    if has span (c.page_lists i)
    then returned (record c { page_lists = set_list i (erase span (c.page_lists i)) c.page_lists })
    else stray

-- `_id_span_map.set`
abbrev pub map_page : ℕ → ℕ → Pool → Run Pool
map_page page span c = set page span c.id_span_map >>= λ m. returned (record c { id_span_map = m })

-- `n` rounds of a loop that maps pages from `page` on; `stride` is 1 where the index stands in the loop's body.
unfoldable pub map_pages : ℕ → ℕ → ℕ → ℕ → Pool → Run Pool
map_pages stride zero page span c = returned c
map_pages stride (suc n) page span c =
    map_page page span c >>= map_pages stride n (add_size page stride) span

-- `Ensure`, whose answer is not looked at. It always has one.
abbrev pub ensure_pages : ℕ → ℕ → Pool → Pool
ensure_pages start n c = elim (ensure start n c.id_span_map) [
  | none ↦ c
  | some (_, m) ↦ record c { id_span_map = m }
]

-- The members that have an initialiser.
abbrev pub initialised : Span → Span
initialised s = record s { objlist = 0; objsize = 0; usecount = 0; is_use = false }

-- The first bucket from `i` on, of `n` buckets, that is not empty, with its front and the rest.
unfoldable pub first_bucket : ℕ → ℕ → (ℕ → List ℕ) → Option (ℕ × ℕ × List ℕ)
first_bucket zero i lists = none
first_bucket (suc n) i lists = elim (lists i) [
  | span ∷ rest ↦ some (i, span, rest)
  | [] ↦ first_bucket n (i + 1) lists
]

-- `_spanPool.Delete(span)`
unfoldable pub delete_span_object : ℕ → Pool → Pool
delete_span_object span c =
    let (words, pool) = delete_object span c.words c.span_pool in
    record c { words = words; span_pool = pool }
