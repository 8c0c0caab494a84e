-- ===== src/Memory/SizeClass.antt =====
-- `classSize` of src/memory/common.hpp: the size classes of small objects, and how many objects or
-- pages move at a time. `none` is a failed `assert`.
pub mod Bounds
pub mod Classes
pub mod Batches
mod Tests
use network_library.Prelude.{
  ℕ, ◌+◌, ◌-◌, ◌*◌, ◌/◌, ◌^◌, Option, none, some, ltb, leb, ◌==◌, if◌then◌else◌,
}
use network_library.Prelude.Words.{add_size, sub_size}

-- `MAXBYTES`, `NFREELIST`, `NPAGES`, `PAGE_SHIFT`
abbrev pub max_bytes : ℕ
max_bytes = 256 * 1024

abbrev pub nfreelist : ℕ
nfreelist = 208

abbrev pub npages : ℕ
npages = 129

abbrev pub page_shift : ℕ
page_shift = 13

abbrev pub page_size : ℕ
page_size = 2 ^ page_shift

-- `(bytes + alignNum - 1) & ~(alignNum - 1)`: `alignNum` is a power of two at every call, and the
-- mask clears the bits below it.
abbrev pub align_up : ℕ → ℕ → ℕ
align_up bytes align = sub_size (add_size bytes align) 1 / align * align

unfoldable pub round_up : ℕ → Option ℕ
round_up size =
    if leb size 128
    then some (align_up size 8)
    else if leb size 1024
    then some (align_up size 16)
    else if leb size (8 * 1024)
    then some (align_up size 128)
    else if leb size (64 * 1024)
    then some (align_up size 1024)
    else if leb size (256 * 1024)
    then some (align_up size (8 * 1024))
    else none

-- `_index`
abbrev pub slot : ℕ → ℕ → ℕ
slot bytes shift = sub_size (sub_size (add_size bytes (2 ^ shift)) 1 / 2 ^ shift) 1

-- The sums are those of `group_array`, { 16, 56, 56, 56 }.
unfoldable pub index : ℕ → Option ℕ
index bytes =
    if leb bytes 128
    then some (slot bytes 3)
    else if leb bytes 1024
    then some (add_size (slot (sub_size bytes 128) 4) 16)
    else if leb bytes (8 * 1024)
    then some (add_size (slot (sub_size bytes 1024) 7) (16 + 56))
    else if leb bytes (64 * 1024)
    then some (add_size (slot (sub_size bytes (8 * 1024)) 10) (16 + 56 + 56))
    else if leb bytes (256 * 1024)
    then some (add_size (slot (sub_size bytes (64 * 1024)) 13) (16 + 56 + 56 + 56))
    else none

-- The bounds that `num_move_size` puts on its quotient.
abbrev pub clamp : ℕ → ℕ
clamp num = if ltb num 2 then 2 else if ltb 512 num then 512 else num

unfoldable pub num_move_size : ℕ → Option ℕ
num_move_size size = if ltb 0 size then some (clamp (max_bytes / size)) else none

-- `npage >>= PAGE_SHIFT; if (npage == 0) npage = 1;`
pages : ℕ → ℕ
pages bytes = if bytes / 2 ^ page_shift == 0 then 1 else bytes / 2 ^ page_shift

unfoldable pub num_move_page : ℕ → Option ℕ
unfolding num_move_size pages
num_move_page size = elim (num_move_size size) [
  | none ↦ none
  | some num ↦ some (pages (num * size))
]
