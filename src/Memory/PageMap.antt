-- ===== src/Memory/PageMap.antt =====
-- src/memory/PageMap.hpp: the radix tree of three levels from page numbers to spans, for BITS = 48 - PAGE_SHIFT.
--
-- `SystemAlloc_sbrk` is outside, and gives memory that nobody else holds; `memset` clears it. A pointer that is null is
-- `none`, a span its address.
pub mod Leaves
pub mod Range
mod Tests
use network_library.Prelude.{
  ℕ, zero, suc, ◌+◌, ◌-◌, ◌*◌, ◌/◌, ◌%◌, ◌^◌, Bool, true, false, not, ◌&&◌, ◌||◌, Option, none,
  some, ltb, leb, ◌==◌, if◌then◌else◌,
}
use network_library.Prelude.Words.{add_size, sub_size, size_mod}
use network_library.Memory.Heap.{Run, returned, null_access, asserting}

-- `BITS`, `INTERIOR_BITS`, `LEAF_BITS`
abbrev pub bits : ℕ
bits = 35

abbrev pub interior_bits : ℕ
interior_bits = 12

abbrev pub leaf_bits : ℕ
leaf_bits = 11

abbrev pub interior_length : ℕ
interior_length = 2 ^ interior_bits

abbrev pub leaf_length : ℕ
leaf_length = 2 ^ leaf_bits

abbrev pub Leaf : Type 0
Leaf = ℕ → ℕ

abbrev pub Node : Type 0
Node = ℕ → Option Leaf

pub record PageMap : Type 0 where
  pub root : ℕ → Option Node
  pub bytes_used : ℕ

abbrev pub empty_leaf : Leaf
empty_leaf i = 0

abbrev pub empty_node : Node
empty_node i = none

-- The constructor.
abbrev pub new_map : PageMap
new_map = record { root = λ _. none; bytes_used = 0 }

-- The three indices.
abbrev pub i1 : ℕ → ℕ
i1 k = k / 2 ^ 23

abbrev pub i2 : ℕ → ℕ
i2 k = k / leaf_length % interior_length

abbrev pub i3 : ℕ → ℕ
i3 k = k % leaf_length

abbrev pub put_node : ℕ → Node → PageMap → PageMap
put_node i node m = record m { root = λ j. if j == i then some node else m.root j }

abbrev pub put_leaf : ℕ → Leaf → Node → Node
put_leaf i leaf node j = if j == i then some leaf else node j

unfoldable pub set : ℕ → ℕ → PageMap → Run PageMap
set k s m = asserting (k / 2 ^ bits == 0) (elim (m.root (i1 k)) [
  | none ↦ null_access
  | some node ↦ elim (node (i2 k)) [
    | none ↦ null_access
    | some leaf ↦
        returned (put_node (i1 k) (put_leaf (i2 k) (λ i. if i == i3 k then s else leaf i) node) m)
  ]
])

-- The leaf of a key.
unfoldable pub leaf_of : ℕ → PageMap → Option Leaf
leaf_of k m = elim (m.root (i1 k)) [ none ↦ none | some node ↦ node (i2 k) ]

-- 0 is the null pointer.
unfoldable pub get : ℕ → PageMap → ℕ
get k m =
    if ltb 0 (k / 2 ^ bits) then 0 else elim (leaf_of k m) [ none ↦ 0 | some leaf ↦ leaf (i3 k) ]

-- `sizeof(Node)` and `sizeof(Leaf)`
abbrev pub node_size : ℕ
node_size = 8 * interior_length

abbrev pub leaf_size : ℕ
leaf_size = interior_length + 8 * interior_length + 8 * 16

-- The first `if` of the loop of `Ensure`.
unfoldable pub add_node : ℕ → PageMap → PageMap
add_node key m = elim (m.root (i1 key)) [
  | some node ↦ m
  | none ↦ put_node (i1 key) empty_node (record m { bytes_used = m.bytes_used + node_size })
]

-- The second, behind it.
unfoldable pub add_leaf : ℕ → PageMap → PageMap
add_leaf key m = elim (m.root (i1 key)) [
  | none ↦ m
  | some node ↦ elim (node (i2 key)) [
    | some leaf ↦ m
    | none ↦
        put_node (i1 key) (put_leaf (i2 key) empty_leaf node)
          (record m { bytes_used = m.bytes_used + leaf_size })
  ]
]

abbrev pub next_key : ℕ → ℕ
next_key key = (key / leaf_length + 1) * leaf_length % size_mod

-- The loop of `Ensure`; `none` is too little fuel.
unfoldable pub ensure_loop : ℕ → ℕ → ℕ → PageMap → Option (Bool × PageMap)
ensure_loop zero key end m = none
ensure_loop (suc fuel) key end m = elim (leb key end) [
  | false ↦ some (true, m)
  | true ↦ elim (leb interior_length (i1 key)) [
    | true ↦ some (false, m)
    | false ↦ ensure_loop fuel (next_key key) end (add_leaf key (add_node key m))
  ]
]

-- `Ensure`. Each round covers one leaf.
unfoldable pub ensure : ℕ → ℕ → PageMap → Option (Bool × PageMap)
ensure start n m =
    let end = sub_size (add_size start n) 1 in
    ensure_loop (end / leaf_length - start / leaf_length + 2) start end m
