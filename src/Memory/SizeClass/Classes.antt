-- ===== src/Memory/SizeClass/Classes.antt =====
-- The free lists of the size classes: each holds blocks of one size.
use network_library.Prelude.{
  ℕ, ◌≤◌, ◌<◌, ◌≡◌, refl, ap, sym, ◌∙◌, Bool, true, false, Option, none, some, ◌==◌, ==_iff, passes,
  passes-at,
}
use network_library.Memory.SizeClass.{max_bytes, nfreelist, round_up, index}
use network_library.Memory.SizeClass.Bounds.{block_size, classify}

-- Two sizes that share a free list are given blocks of the same size.
pub same_block :
    (a b : ℕ)
    → 0 < a
    → a ≤ max_bytes
    → 0 < b
    → b ≤ max_bytes
    → index a ≡ index b
    → round_up a ≡ round_up b
same_block a b ha ka hb kb e =
    let (i, pa, _, ra) = classify a ha ka in
    let (j, pb, _, rb) = classify b hb kb in
    let same : i ≡ j = cc in ra.rounded ∙ ap (λ k. some (block_size k)) same ∙ sym rb.rounded

abbrev at_list : Option ℕ → ℕ → Bool
at_list none i = false
at_list (some j) i = j == i

at_list_sound : (o : Option ℕ) (i : ℕ) → at_list o i ≡ true → o ≡ some i
at_list_sound none i h = cc
at_list_sound (some j) i h = ap some ((==_iff j i).0 h)

table : passes (λ i. at_list (index (block_size i)) i) nfreelist ≡ true
unfolding passes index block_size
table = refl

-- Every one of the 208 lists is the list of its own block size, so none is unused.
pub index-block_size : (i : ℕ) → i < nfreelist → index (block_size i) ≡ some i
index-block_size i h = at_list_sound (index (block_size i)) i (passes-at _ nfreelist i table h)
