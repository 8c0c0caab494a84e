-- ===== src/LoopPool/Tests.antt =====
-- A pool of three loops, and the theorems at it.
use network_library.Prelude.{◌+◌, ◌≡◌, refl, [], ◌∷◌, ◌++◌, replicate, arith}
use network_library.LoopPool.{Pool, new_pool, set_thread_num, start}
use network_library.LoopPool.Turns.{handed_out, handed_out_lem, handed_out-base_loop}

abbrev three : Pool
three = record (new_pool 9) { loops = 4 ∷ 5 ∷ 6 ∷ [] }

handed_out_lem_example : handed_out (3 + 2) three ≡ (4 ∷ 5 ∷ 6 ∷ []) ++ handed_out 2 three
handed_out_lem_example = handed_out_lem three 2 refl (omega arith)

handed_out-base_loop_example :
    handed_out 5 (start (λ i. i) (set_thread_num 3 (new_pool 9))) ≡ replicate 5 9
handed_out-base_loop_example = handed_out-base_loop (λ i. i) 9 3 5
