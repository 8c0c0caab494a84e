-- ===== src/Memory/ThreadCache.antt =====
-- src/memory/ThreadCache.hpp, ThreadCache.cc and ConcurrentAlloc.hpp: the cache of one thread, and the functions that
-- programs call.
pub mod Return
mod Tests
use network_library.Prelude.{
  ℕ, suc, ◌+◌, ◌*◌, ◌/◌, ◌^◌, Bool, true, false, not, Option, none, some, min, ltb, leb, ◌==◌,
  if◌then◌else◌,
}
use network_library.Prelude.Words.{add_size, sub_size}
use network_library.Memory.SizeClass.{max_bytes, page_shift, round_up, index, num_move_size}
use network_library.Memory.Heap.{Run, returned, aborted, ◌>>=◌, asserting, load}
use network_library.Memory.FreeList.{FreeList, new_list, push, push_range, pop_range, pop, is_empty}
use network_library.Memory.PageCache.{Span, Pool, page_id, set_span}
use network_library.Memory.PageCache.Spans.{new_span, map_object_to_span}
use network_library.Memory.PageCache.Merge.{release_to_page_cache}
use network_library.Memory.CentralCache.{asserted, fetch_range_obj, release_list_to_spans}

-- `_freelist`, with what all threads share.
pub record ThreadCache : Type 0 where
  pub lists : ℕ → FreeList
  pub pool : Pool

abbrev pub set_free_list : ℕ → FreeList → ThreadCache → ThreadCache
set_free_list i l t = record t { lists = λ j. if j == i then l else t.lists j }

-- A list, with the memory that an operation on it leaves.
abbrev pub put_list : ℕ → FreeList → (ℕ → ℕ) → ThreadCache → ThreadCache
put_list i l h t = record (set_free_list i l t) { pool = record t.pool { words = h } }

-- `list_to_long`
unfoldable pub list_to_long : ℕ → ℕ → ThreadCache → Run ThreadCache
list_to_long i size t = do
  let n = (t.lists i).max_size
  ((start, _), l, h) ← pop_range n (t.lists i) t.pool.words
  let t1 = put_list i l h t
  c ← release_list_to_spans n start size t1.pool
  returned (record t1 { pool = c })

unfoldable pub deallocate : ℕ → ℕ → ThreadCache → Run ThreadCache
deallocate ptr size t = asserting (not (ptr == 0)) (
    asserting (leb size max_bytes) (do
      i ← asserted (index size)
      (l, h) ← push ptr (t.lists i) t.pool.words
      let t1 = put_list i l h t
      if ltb (t1.lists i).max_size (t1.lists i).size then list_to_long i size t1 else returned t1))

-- Slow start: the batch, and the list that grows its next batch where the size class allows.
abbrev pub next_batch : ℕ → FreeList → ℕ × FreeList
next_batch most l =
    let num = min most l.max_size in
    (num, if num == l.max_size then record l { max_size = add_size l.max_size 1 } else l)

module _ (page_memory pool_memory : ℕ → ℕ) where
  unfoldable pub fetch_from_central_cache : ℕ → ℕ → ThreadCache → Run (ℕ × ThreadCache)
  fetch_from_central_cache i size t = do
    most ← asserted (num_move_size size)
    let (num, l) = next_batch most (t.lists i)
    let t1 = set_free_list i l t
    ((begin, end, actual), c) ← fetch_range_obj page_memory pool_memory num size t1.pool
    let t2 = record t1 { pool = c }
    asserting (leb 1 actual) (
        if actual == 1 then returned (begin, t2) else (do
          second ← load begin c.words
          (l2, h) ← push_range second end (sub_size actual 1) (t2.lists i) c.words
          returned (begin, put_list i l2 h t2)))

  unfoldable pub allocate : ℕ → ThreadCache → Run (ℕ × ThreadCache)
  allocate size t = asserting (leb size max_bytes) (do
    aligned ← asserted (round_up size)
    i ← asserted (index aligned)
    if not (is_empty (t.lists i))
        then (do (obj, l) ← pop (t.lists i) t.pool.words; returned (obj, set_free_list i l t))
        else fetch_from_central_cache i aligned t)

  -- The branch of `ConcurrentAlloc` for large sizes.
  unfoldable pub allocate_pages : ℕ → ThreadCache → Run (ℕ × ThreadCache)
  allocate_pages size t = do
    aligned ← asserted (round_up size)
    (span, c) ← new_span page_memory pool_memory 2 (aligned / 2 ^ page_shift) t.pool
    let c1 = set_span span (record (c.spans span) { objsize = size }) c
    returned (page_id span c1 * 2 ^ page_shift, record t { pool = c1 })

  -- `ConcurrentAlloc`; a thread without a cache makes one of empty lists.
  unfoldable pub concurrent_alloc : ℕ → Option (ℕ → FreeList) → Pool → Run (ℕ × ThreadCache)
  concurrent_alloc size tls c =
      let lists : ℕ → FreeList = elim tls [ none ↦ λ _. new_list | some lists ↦ lists ] in
      let t : ThreadCache = record { lists = lists; pool = c } in
      if ltb max_bytes size then allocate_pages size t else allocate size t

-- `ConcurrentFree`, in a thread that has a cache.
unfoldable pub concurrent_free : ℕ → ThreadCache → Run ThreadCache
concurrent_free ptr t = do
  span ← map_object_to_span ptr t.pool
  let size = (t.pool.spans span).objsize
  elim (ltb max_bytes size) [
    | true ↦ release_to_page_cache span t.pool >>= λ c. returned (record t { pool = c })
    | false ↦ deallocate ptr size t
  ]
