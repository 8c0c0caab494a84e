-- ===== src/Memory/PageMap/Leaves.antt =====
-- src/memory/PageMap.hpp: what set and the growth of the tree do to every key.
use network_library.Prelude.{
  ℕ, ◌^◌, ◌<◌, ◌≡◌, ap₂, Bool, true, false, ◌&&◌, none, some, arith, ◌==◌, if◌then◌else◌,
  Option-cases, inl, inr,
}
use network_library.Memory.Heap.{returned}
use network_library.Memory.PageMap.{
  PageMap, empty_leaf, i1, i2, i3, bits, put_node, put_leaf, set, leaf_of, get, add_node, add_leaf,
}

abbrev pub has_leaf : ℕ → PageMap → Bool
has_leaf k m = elim (leaf_of k m) [ none ↦ false | some _ ↦ true ]

-- The page numbers of one leaf.
abbrev pub same_leaf : ℕ → ℕ → Bool
same_leaf j k = (i1 j == i1 k) && (i2 j == i2 k)

pub leaf_of-grow :
    (j k : ℕ) (m : PageMap)
    → leaf_of j (add_leaf k (add_node k m)) ≡ (
        if same_leaf j k
        then elim (leaf_of k m) [ none ↦ some empty_leaf | some leaf ↦ some leaf ]
        else leaf_of j m)
unfolding leaf_of add_leaf add_node
leaf_of-grow j k m = ground arith

leaf_of-same_leaf : (j k : ℕ) (m : PageMap) → same_leaf j k ≡ true → leaf_of j m ≡ leaf_of k m
unfolding leaf_of
leaf_of-same_leaf j k m e =
    ap₂ (λ a b. elim (m.root a) [ none ↦ none | some node ↦ node b ]) (ground (arith, e))
      (ground (arith, e))

pub get-grow : (j k : ℕ) (m : PageMap) → get j (add_leaf k (add_node k m)) ≡ get j m
unfolding get
get-grow j k m = ground (arith, leaf_of-grow j k m, leaf_of-same_leaf j k m)

-- The three indices tell page numbers apart.
indices : (j k : ℕ) → i1 j ≡ i1 k → i2 j ≡ i2 k → i3 j ≡ i3 k → j ≡ k
indices j k a b c = omega (arith, a, b, c)

-- set of a page number that has a leaf maps that page number, and takes no leaf away.
pub get-set :
    (k s : ℕ) (m : PageMap)
    → k < 2 ^ bits
    → has_leaf k m ≡ true
    → (m' : PageMap) × (set k s m ≡ returned m')
      × ((j : ℕ) → get j m' ≡ (if j == k then s else get j m))
      × ((j : ℕ) → has_leaf j m' ≡ has_leaf j m)
unfolding set get leaf_of
get-set k s m small h = elim (Option-cases (m.root (i1 k))) [
  | inl absent ↦ absurd (ground (arith, absent, h))
  | inr (node, here) ↦ elim (Option-cases (node (i2 k))) [
    | inl absent ↦ absurd (ground (arith, here, absent, h))
    | inr (leaf, there) ↦ (
      put_node (i1 k) (put_leaf (i2 k) (λ i. if i == i3 k then s else leaf i) node) m,
      ground (arith, here, there, small),
      λ j. ground (arith, here, there, small, indices j k),
      λ j. ground (arith, here, there),
    )
  ]
]
