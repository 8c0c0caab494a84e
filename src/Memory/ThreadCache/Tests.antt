-- ===== src/Memory/ThreadCache/Tests.antt =====
-- Allocations of a thread, from an empty pool.
use network_library.Prelude.{ℕ, ◌+◌, ◌*◌, ◌≡◌, refl, [], ◌∷◌, none, some, arith}
use network_library.Memory.Heap.{returned, ◌>>=◌, write}
use network_library.Memory.FreeList.Valid.{Holds}
use network_library.Memory.ThreadCache.Return.{Returns, deallocate-Returns}
use network_library.Memory.FreeList.{push_range, pop}
use network_library.Memory.SizeClass.{round_up, index, num_move_size, num_move_page}
use network_library.Memory.ObjectPool.{refill, cut, new_object}
use network_library.Memory.PageMap.{set, get, leaf_of, add_node, add_leaf, ensure, ensure_loop}
use network_library.Memory.PageCache.{empty_pool, map_pages, first_bucket}
use network_library.Memory.PageCache.Spans.{
  new_span, new_span_object, large_span, whole_span, split_span, cut_front, map_parts, grow,
  hang_block,
}
use network_library.Memory.CentralCache.{
  link_objects, carve, usable_span, take_objects, fill_bucket, get_one_span, fetch_range_obj,
}
use network_library.Memory.ThreadCache.{
  ThreadCache, deallocate, fetch_from_central_cache, allocate, concurrent_alloc,
}

-- Blocks of 128 pages, and blocks for spans.
abbrev page_memory : ℕ → ℕ
page_memory i = 0x1000_0000 + i * 0x10_0000

abbrev pool_memory : ℕ → ℕ
pool_memory i = 0x100_0000 + i * 0x2_0000

first_object :
    ((concurrent_alloc page_memory pool_memory 3000 none empty_pool) >>= λ (obj, t). returned obj)
    ≡ returned 0x1000_0000
unfolding concurrent_alloc allocate fetch_from_central_cache fetch_range_obj get_one_span
    fill_bucket usable_span take_objects carve link_objects new_span new_span_object large_span
    whole_span split_span cut_front map_parts hang_block grow first_bucket map_pages set get leaf_of
    round_up index num_move_size num_move_page add_node add_leaf ensure ensure_loop new_object
    refill cut push_range pop
first_object = refl

-- A thread whose list 0 is at its limit of two objects.
abbrev full_thread : ThreadCache
full_thread = record {
  lists = λ _. record { head = 8; max_size = 2; size = 2 };
  pool = record empty_pool { words = write 8 16 (λ _. 0) };
}

two-Holds : Holds full_thread.pool.words (full_thread.lists 0) (8 ∷ 16 ∷ [])
two-Holds = record { chain = refl; apart = refl; count = refl; small = omega arith }

smallest_class : index 8 ≡ some 0
unfolding index
smallest_class = refl

deallocate-Returns_example : Returns 24 0 (8 ∷ 16 ∷ []) full_thread (deallocate 24 8 full_thread)
deallocate-Returns_example =
    deallocate-Returns 24 8 0 (8 ∷ 16 ∷ []) full_thread smallest_class (omega arith) (omega arith)
      two-Holds refl (omega arith)
