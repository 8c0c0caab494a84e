-- ===== src/Memory/SpanList/Tests.antt =====
-- A bucket of three spans.
use network_library.Prelude.{ℕ, ◌≡◌, refl, List, [], ◌∷◌, ◌==◌, length}
use network_library.Memory.PageCache.{empty_pool}
use network_library.Memory.CentralCache.{usable_span}
use network_library.Memory.Heap.{returned}
use network_library.Memory.SpanList.{Links, init, begin, is_empty, find_usable}
use network_library.Memory.SpanList.Ring.{Rings}
use network_library.Memory.SpanList.Plain.{
  pushes, erases, inserts, pops, run, run_list, step_list, put_before,
}
use network_library.Memory.SpanList.Refine.{run-run_list}

abbrev fresh : Links
fresh = init 64 (record { next = λ _. 0; prev = λ _. 0 })

fresh-Rings : Rings 64 fresh []
fresh-Rings = record { ring = refl; apart = refl; real = refl }

run-run_list_example :
    (m : Links) × (run 64 (pushes 128 ∷ pushes 192 ∷ inserts 64 256 ∷ erases 128 ∷ pops ∷ []) fresh
      ≡ returned (192 ∷ [], m))
    × Rings 64 m (256 ∷ [])
    × (find_usable (λ s. (empty_pool.spans s).objlist) 1 64 (begin 64 m) m
        ≡ returned (usable_span (256 ∷ []) empty_pool))
    × (is_empty 64 m ≡ (length (let e : List ℕ = 256 ∷ [] in e) == 0))
unfolding run_list step_list put_before
run-run_list_example =
    run-run_list 64 (pushes 128 ∷ pushes 192 ∷ inserts 64 256 ∷ erases 128 ∷ pops ∷ []) []
      (192 ∷ []) (256 ∷ []) empty_pool fresh-Rings refl
