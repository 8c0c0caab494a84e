-- ===== src/Memory/ObjectPool.antt =====
-- src/memory/ObjectPool.hpp: objects of one size, cut from blocks of 128 KiB.
--
-- `sbrk` is outside: the answers of its calls, in order. `object_size` is `objSize`.
pub mod Apart
pub mod Safe
mod Tests
use network_library.Prelude.{ℕ, suc, ◌+◌, ◌-◌, ◌*◌, Bool, true, false, ltb, ◌==◌, if◌then◌else◌}
use network_library.Memory.Heap.{Heap, write}

pub record ObjectPool : Type 0 where
  pub memory : ℕ
  pub remain_bytes : ℕ
  pub free_list : ℕ
  pub calls : ℕ

-- The member initialisers.
abbrev pub new_pool : ObjectPool
new_pool = record { memory = 0; remain_bytes = 0; free_list = 0; calls = 0 }

abbrev pub block_bytes : ℕ
block_bytes = 128 * 1024

module _ (sbrk : ℕ → ℕ) (object_size : ℕ) where
  -- A new block, where the rest of the last is too small for an object.
  unfoldable pub refill : ObjectPool → ObjectPool
  refill p =
      if ltb p.remain_bytes object_size
      then record p { remain_bytes = block_bytes; memory = sbrk p.calls; calls = suc p.calls }
      else p

  unfoldable pub cut : ObjectPool → ℕ × ObjectPool
  cut p = (
    p.memory,
    record p { remain_bytes = p.remain_bytes - object_size; memory = p.memory + object_size },
  )

  -- `New`, up to the constructor of the object.
  unfoldable pub new_object : Heap → ObjectPool → ℕ × ObjectPool
  new_object h p =
      if p.free_list == 0
      then cut (refill p)
      else (p.free_list, record p { free_list = h p.free_list })

-- `Delete`, behind the destructor of the object.
unfoldable pub delete_object : ℕ → Heap → ObjectPool → Heap × ObjectPool
delete_object obj h p = (write obj p.free_list h, record p { free_list = obj })
