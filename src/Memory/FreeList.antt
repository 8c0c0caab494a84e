-- ===== src/Memory/FreeList.antt =====
-- src/memory/common.hpp: FreeList, the objects that a cache has at hand, linked through their first words.
pub mod Valid
pub mod Refine
pub mod Batch
mod Tests
use network_library.Prelude.{ℕ, zero, suc, Bool, List, [], ◌∷◌, ltb, leb, ◌==◌}
use network_library.Prelude.Words.{add_size, sub_size}
use network_library.Memory.Heap.{Heap, Run, returned, ◌>>=◌, asserting, load, store}

pub record FreeList : Type 0 where
  pub head : ℕ
  pub max_size : ℕ
  pub size : ℕ

-- The member initialisers.
abbrev pub new_list : FreeList
new_list = record { head = 0; max_size = 1; size = 0 }

unfoldable pub push : ℕ → FreeList → Heap → Run (FreeList × Heap)
push obj l h = do
  h' ← store obj l.head h
  returned (record l { head = obj; size = add_size l.size 1 }, h')

unfoldable pub push_range : ℕ → ℕ → ℕ → FreeList → Heap → Run (FreeList × Heap)
push_range start end n l h = do
  h' ← store end l.head h
  returned (record l { head = start; size = add_size l.size n }, h')

-- `end = NEXT_OBJ(end)`, so many times.
unfoldable pub walk : ℕ → ℕ → Heap → Run ℕ
walk zero end h = returned end
walk (suc n) end h = load end h >>= λ next. walk n next h

-- `PopRange`, with `start` and `end`.
unfoldable pub pop_range : ℕ → FreeList → Heap → Run ((ℕ × ℕ) × FreeList × Heap)
pop_range n l h = asserting (leb l.size n) (do
  end ← walk (sub_size n 1) l.head h
  rest ← load end h
  h' ← store end 0 h
  returned ((l.head, end), record l { head = rest; size = sub_size l.size n }, h'))

unfoldable pub pop : FreeList → Heap → Run (ℕ × FreeList)
pop l h = do
  rest ← load l.head h
  returned (l.head, record l { head = rest; size = sub_size l.size 1 })

abbrev pub is_empty : FreeList → Bool
is_empty l = l.head == 0
