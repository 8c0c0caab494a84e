-- ===== src/Memory/SizeClass/Tests.antt =====
-- Runs of the size classes, and their theorems at concrete sizes.
use network_library.Prelude.{ℕ, ◌+◌, ◌*◌, ◌≤◌, ◌<◌, ◌≡◌, refl, none, some, arith}
use network_library.Memory.SizeClass.{
  npages, page_size, round_up, index, num_move_size, num_move_page,
}
use network_library.Memory.SizeClass.Bounds.{block_size, Classified, classify}
use network_library.Memory.SizeClass.Classes.{same_block, index-block_size}
use network_library.Memory.SizeClass.Batches.{num_move_bounds}

round_up_runs :
    (round_up 7 ≡ some 8) × (round_up 129 ≡ some 144) × (round_up (256 * 1024 + 1) ≡ none)
unfolding round_up
round_up_runs = (refl, refl, refl)

-- Size 0 is sent to the list of index -1.
index_runs : (index 7 ≡ some 0) × (index 1025 ≡ some 72) × (index 0 ≡ some 18446744073709551615)
unfolding index
index_runs = (refl, refl, refl)

classify_example : Classified 1025
classify_example = classify 1025 (omega arith) (omega arith)

same_block_example : round_up 130 ≡ round_up 144
unfolding index
same_block_example = same_block 130 144 (omega arith) (omega arith) (omega arith) (omega arith) refl

index-block_size_example : index (block_size 73) ≡ some 73
index-block_size_example = index-block_size 73 (omega arith)

num_move_bounds_example :
    (n p : ℕ) × (num_move_size 4096 ≡ some n)
    × (num_move_page 4096 ≡ some p)
    × (2 ≤ n)
    × (n ≤ 512)
    × (0 < p)
    × (4096 ≤ p * page_size)
    × (p < npages)
num_move_bounds_example = num_move_bounds 4096 (omega arith) (omega arith)
