-- ===== src/Memory/SizeClass/Bounds.antt =====
-- Rounding up to a size class: enough, aligned, and little wasted; and where the class is kept.
use network_library.Prelude.{
  ℕ, ◌+◌, ◌-◌, ◌*◌, ◌%◌, ◌≤◌, ◌<◌, ◌≡◌, ap, sym, ◌∙◌, some, arith, ltb, if◌then◌else◌, subst,
}
use native.Mathlib.Decide.{dec_le}
use network_library.Prelude.Words.{add_size, sub_size}
use network_library.Memory.SizeClass.{max_bytes, nfreelist, round_up, index, align_up, slot}

abbrev place : ℕ → ℕ → ℕ → ℕ → ℕ
place size lo shift base = add_size (slot (sub_size size lo) shift) base

-- The class that a size falls in: its bounds, what `round_up` makes of it and where `index` puts it.
record InClass (size lo hi align shift base : ℕ) : Type 0 where
  above : lo < size
  upto : size ≤ hi
  rounded : round_up size ≡ some (align_up size align)
  placed : index size ≡ some (place size lo shift base)

module _ (size : ℕ) where
  class_first : 0 < size → size ≤ 128 → InClass size 0 128 8 3 0
  unfolding round_up index
  class_first h k = record { above = h; upto = k; rounded = ground arith; placed = ground arith }

  class_second : 128 < size → size ≤ 1024 → InClass size 128 1024 16 4 16
  unfolding round_up index
  class_second h k = record { above = h; upto = k; rounded = ground arith; placed = ground arith }

  class_third : 1024 < size → size ≤ 8 * 1024 → InClass size 1024 (8 * 1024) 128 7 72
  unfolding round_up index
  class_third h k = record { above = h; upto = k; rounded = ground arith; placed = ground arith }

  class_fourth :
      8 * 1024 < size → size ≤ 64 * 1024 → InClass size (8 * 1024) (64 * 1024) 1024 10 128
  unfolding round_up index
  class_fourth h k = record { above = h; upto = k; rounded = ground arith; placed = ground arith }

  class_fifth :
      64 * 1024 < size → size ≤ max_bytes → InClass size (64 * 1024) max_bytes (8 * 1024) 13 184
  unfolding round_up index
  class_fifth h k = record { above = h; upto = k; rounded = ground arith; placed = ground arith }

-- What a size is rounded to: enough, aligned to 8 bytes, of the size's own class, and, above 128
-- bytes, wasting less than a ninth of the block.
pub record Rounded (size r : ℕ) : Type 0 where
  pub rounded : round_up size ≡ some r
  pub enough : size ≤ r
  pub aligned : r % 8 ≡ 0
  pub within : r ≤ max_bytes
  pub thrifty : 128 < size → 9 * (r - size) < r
  pub same_class : index r ≡ index size

-- The arithmetic of one class.
abbrev Fits : ℕ → ℕ → ℕ → ℕ → ℕ → ℕ → Type 0
Fits size r lo hi shift base =
    (size ≤ r)
    × (r % 8 ≡ 0)
    × (r ≤ hi)
    × (128 < size → 9 * (r - size) < r)
    × (place r lo shift base ≡ place size lo shift base)
    × (place size lo shift base < nfreelist)

-- The block size of a free list: 16 lists step by 8 bytes, then 56 each by 16, 128 and 1024, then
-- 24 by 8192.
unfoldable pub block_size : ℕ → ℕ
block_size i =
    if ltb i 16
    then 8 * (i + 1)
    else if ltb i 72
    then 128 + 16 * (i - 15)
    else if ltb i 128
    then 1024 + 128 * (i - 71)
    else if ltb i 184
    then 8 * 1024 + 1024 * (i - 127)
    else 64 * 1024 + 8 * 1024 * (i - 183)

block_first : (size : ℕ) → 0 < size → size ≤ 128 → align_up size 8 ≡ block_size (place size 0 3 0)
unfolding block_size
block_first size h k = ground arith

block_second :
    (size : ℕ) → 128 < size → size ≤ 1024 → align_up size 16 ≡ block_size (place size 128 4 16)
unfolding block_size
block_second size h k = ground arith

block_third :
    (size : ℕ)
    → 1024 < size
    → size ≤ 8 * 1024
    → align_up size 128 ≡ block_size (place size 1024 7 72)
unfolding block_size
block_third size h k = ground arith

block_fourth :
    (size : ℕ)
    → 8 * 1024 < size
    → size ≤ 64 * 1024
    → align_up size 1024 ≡ block_size (place size (8 * 1024) 10 128)
unfolding block_size
block_fourth size h k = ground arith

block_fifth :
    (size : ℕ)
    → 64 * 1024 < size
    → size ≤ max_bytes
    → align_up size (8 * 1024) ≡ block_size (place size (64 * 1024) 13 184)
unfolding block_size
block_fifth size h k = ground arith

abbrev pub Classified : ℕ → Type 0
Classified size = (i : ℕ) × (index size ≡ some i) × (i < nfreelist) × Rounded size (block_size i)

classified :
    {size lo hi align shift base : ℕ}
    → hi ≤ max_bytes
    → InClass size lo hi align shift base
    → InClass (align_up size align) lo hi align shift base
    → Fits size (align_up size align) lo hi shift base
    → align_up size align ≡ block_size (place size lo shift base)
    → Classified size
classified {size} {lo} {hi} {align} {shift} {base} h c d f e = (
  place size lo shift base,
  c.placed,
  f.5,
  subst (Rounded size) e (record {
    rounded = c.rounded;
    enough = f.0;
    aligned = f.1;
    within = omega (arith, f.2);
    thrifty = f.3;
    same_class = d.placed ∙ ap some f.4 ∙ sym c.placed;
  }),
)

arithmetic_first : (size : ℕ) → 0 < size → size ≤ 128 → Fits size (align_up size 8) 0 128 3 0
arithmetic_first size h k = omega arith

arithmetic_second :
    (size : ℕ) → 128 < size → size ≤ 1024 → Fits size (align_up size 16) 128 1024 4 16
arithmetic_second size h k = omega arith

arithmetic_third :
    (size : ℕ) → 1024 < size → size ≤ 8 * 1024 → Fits size (align_up size 128) 1024 (8 * 1024) 7 72
arithmetic_third size h k = omega arith

arithmetic_fourth :
    (size : ℕ)
    → 8 * 1024 < size
    → size ≤ 64 * 1024
    → Fits size (align_up size 1024) (8 * 1024) (64 * 1024) 10 128
arithmetic_fourth size h k = omega arith

arithmetic_fifth :
    (size : ℕ)
    → 64 * 1024 < size
    → size ≤ max_bytes
    → Fits size (align_up size (8 * 1024)) (64 * 1024) max_bytes 13 184
arithmetic_fifth size h k = omega arith

in_first : (size : ℕ) → 0 < size → size ≤ 128 → Classified size
in_first size h k =
    let f = arithmetic_first size h k in
    classified (omega arith) (class_first size h k)
      (class_first (align_up size 8) (omega (arith, f.0)) f.2) f (block_first size h k)

in_second : (size : ℕ) → 128 < size → size ≤ 1024 → Classified size
in_second size h k =
    let f = arithmetic_second size h k in
    classified (omega arith) (class_second size h k)
      (class_second (align_up size 16) (omega (arith, f.0)) f.2) f (block_second size h k)

in_third : (size : ℕ) → 1024 < size → size ≤ 8 * 1024 → Classified size
in_third size h k =
    let f = arithmetic_third size h k in
    classified (omega arith) (class_third size h k)
      (class_third (align_up size 128) (omega (arith, f.0)) f.2) f (block_third size h k)

in_fourth : (size : ℕ) → 8 * 1024 < size → size ≤ 64 * 1024 → Classified size
in_fourth size h k =
    let f = arithmetic_fourth size h k in
    classified (omega arith) (class_fourth size h k)
      (class_fourth (align_up size 1024) (omega (arith, f.0)) f.2) f (block_fourth size h k)

in_fifth : (size : ℕ) → 64 * 1024 < size → size ≤ max_bytes → Classified size
in_fifth size h k =
    let f = arithmetic_fifth size h k in
    classified (omega arith) (class_fifth size h k)
      (class_fifth (align_up size (8 * 1024)) (omega (arith, f.0)) f.2) f (block_fifth size h k)

-- Every size from 1 to `MAXBYTES` has one of the 208 free lists, and is rounded up to the block
-- size of that list: enough, a multiple of 8, at most `MAXBYTES`, in the size's own class, and, for
-- a size above 128, wasting less than a ninth of the block.
pub classify : (size : ℕ) → 0 < size → size ≤ max_bytes → Classified size
classify size h k = elim (dec_le size 128) [
  | yes a ↦ in_first size h a
  | no a ↦ elim (dec_le size 1024) [
    | yes b ↦ in_second size (omega arith) b
    | no b ↦ elim (dec_le size (8 * 1024)) [
      | yes c ↦ in_third size (omega arith) c
      | no c ↦ elim (dec_le size (64 * 1024)) [
        | yes d ↦ in_fourth size (omega arith) d
        | no d ↦ in_fifth size (omega arith) k
      ]
    ]
  ]
]
