-- ===== src/Memory/ObjectPool/Tests.antt =====
-- A client of a pool of 64-byte objects.
use network_library.Prelude.{ℕ, suc, ◌+◌, ◌*◌, ◌≡◌, ◌≤◌, refl, true, List, [], ◌∷◌, arith}
use network_library.Memory.ObjectPool.{block_bytes, new_object, delete_object, cut, refill}
use network_library.Memory.ObjectPool.Apart.{all_apart}
use network_library.Memory.ObjectPool.Safe.{Op, news, deletes, writes, step, run, run-all_apart}

abbrev sbrk : ℕ → ℕ
sbrk i = 4096 + i * block_bytes

sbrk-grows : (i : ℕ) → sbrk i + block_bytes ≤ sbrk (suc i)
sbrk-grows i = omega arith

abbrev client : List Op
client = news ∷ news ∷ writes 4096 8 7 ∷ deletes 4160 ∷ news ∷ news ∷ []

run-all_apart_example : all_apart 64 (4224 ∷ 4160 ∷ 4096 ∷ []) ≡ true
unfolding step run new_object delete_object cut refill
run-all_apart_example =
    run-all_apart sbrk 64 (omega arith) (omega arith) (omega arith) sbrk-grows client (λ _. 0) _ _
      (4224 ∷ 4160 ∷ 4096 ∷ []) refl
