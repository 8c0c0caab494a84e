-- ===== src/Memory/FreeList/Tests.antt =====
-- Lists of a few objects.
use network_library.Prelude.{◌≡◌, refl, [], ◌∷◌, arith}
use network_library.Memory.Heap.{Heap, returned, write}
use network_library.Memory.FreeList.{FreeList, pop_range}
use network_library.Memory.FreeList.Valid.{Holds}
use network_library.Memory.FreeList.Refine.{pushes, pops, run, run_stack, run-run_stack}
use network_library.Memory.FreeList.Batch.{Pops, pop_range-Pops}

abbrev two : FreeList
two = record { head = 8; max_size = 1; size = 2 }

abbrev heap_of_two : Heap
heap_of_two = write 8 16 (λ _. 0)

two-Holds : Holds heap_of_two two (8 ∷ 16 ∷ [])
two-Holds = record { chain = refl; apart = refl; count = refl; small = omega arith }

run-run_stack_example :
    (l' : FreeList) × (h' : Heap) × (run (pushes 40 ∷ pops ∷ pops ∷ pushes 8 ∷ []) two heap_of_two
      ≡ returned (40 ∷ 8 ∷ [], l', h'))
    × Holds h' l' (8 ∷ 16 ∷ [])
unfolding run_stack
run-run_stack_example =
    run-run_stack (pushes 40 ∷ pops ∷ pops ∷ pushes 8 ∷ []) (8 ∷ 16 ∷ []) (40 ∷ 8 ∷ [])
      (8 ∷ 16 ∷ []) two-Holds (omega arith) refl

pop_range-Pops_example : Pops 1 (8 ∷ 16 ∷ []) (pop_range 1 two heap_of_two)
pop_range-Pops_example = pop_range-Pops heap_of_two two (8 ∷ 16 ∷ []) 1 two-Holds (omega arith)
