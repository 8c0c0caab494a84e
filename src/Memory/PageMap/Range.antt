-- ===== src/Memory/PageMap/Range.antt =====
-- src/memory/PageMap.hpp: Ensure of a range, and set and get behind it.
use network_library.Prelude.{
  ℕ, zero, suc, ◌+◌, ◌-◌, ◌*◌, ◌/◌, ◌^◌, ◌≤◌, ◌<◌, ◌≡◌, refl, ◌∙◌, subst, true, false, ◌||◌, some,
  arith, ltb, leb, ◌==◌, if◌then◌else◌, Bool-cases, inl, inr,
}
use network_library.Prelude.Words.{add_size, sub_size}
use network_library.Memory.Heap.{returned}
use network_library.Memory.PageMap.{
  PageMap, i1, bits, leaf_length, interior_length, set, get, add_node, add_leaf, next_key,
  ensure_loop, ensure,
}
use network_library.Memory.PageMap.Leaves.{has_leaf, same_leaf, leaf_of-grow, get-grow, get-set}

has_leaf-grow :
    (j k : ℕ) (m : PageMap)
    → has_leaf j (add_leaf k (add_node k m)) ≡ (same_leaf j k || has_leaf j m)
has_leaf-grow j k m = ground (arith, leaf_of-grow j k m)

-- A page number from `key` on, and before the key of the next round, is in the leaf of `key`.
same_leaf-round :
    (j key : ℕ) → key ≤ j → j < (key / leaf_length + 1) * leaf_length → same_leaf j key ≡ true
same_leaf-round j key h k =
    let e : j / leaf_length ≡ key / leaf_length = omega (arith, h, k) in ground (arith, e)

-- `m'` has what `m` has, and leaves for the page numbers from `key` to `end`.
pub record Covers (key end : ℕ) (m m' : PageMap) : Type 0 where
  pub covers : (j : ℕ) → key ≤ j → j ≤ end → has_leaf j m' ≡ true
  pub keeps : (j : ℕ) → has_leaf j m ≡ true → has_leaf j m' ≡ true
  pub same : (j : ℕ) → get j m' ≡ get j m

pub ensure_loop-Covers :
    (fuel key end : ℕ) (m : PageMap)
    → end < 2 ^ bits
    → key ≤ end + leaf_length
    → end / leaf_length + 2 ≤ key / leaf_length + fuel
    → (m' : PageMap) × (ensure_loop fuel key end m ≡ some (true, m')) × Covers key end m m'
unfolding ensure_loop
ensure_loop-Covers zero key end m small near enough = absurd (omega (arith, near, enough))
ensure_loop-Covers (suc fuel) key end m small near enough = elim (Bool-cases (leb key end)) [
  | inr past ↦ (
    m,
    rw (past, ensure_loop) refl,
    record {
      covers = λ j a b. absurd (ground (arith, past, a, b));
      keeps = λ j h. h;
      same = λ j. refl;
    },
  )
  | inl inside ↦
      let here : key ≤ end = ground (arith, inside) in
      let next : next_key key ≡ (key / leaf_length + 1) * leaf_length =
        omega (arith, here, small) in
      let valid : leb interior_length (i1 key) ≡ false = ground (arith, here, small) in
      let (m', e, c) =
        ensure_loop-Covers fuel (next_key key) end (add_leaf key (add_node key m)) small
          (omega (arith, here, next)) (omega (arith, here, next, enough)) in
      (
        m',
        rw (inside, ensure_loop) (rw (valid, ensure_loop) e),
        record {
          covers = λ j a b. elim (Bool-cases (ltb j (next_key key))) [
            | inl first ↦ c.keeps j (
                has_leaf-grow j key m
                ∙ ground (arith, same_leaf-round j key a (ground (arith, first, next))))
            | inr later ↦ c.covers j (ground (arith, later)) b
          ];
          keeps = λ j h. c.keeps j (has_leaf-grow j key m ∙ ground (arith, h));
          same = λ j. c.same j ∙ get-grow j key m;
        },
      )
]

pub ensure-Covers :
    (start n : ℕ) (m : PageMap)
    → start + n ≤ 2 ^ bits
    → 0 < n
    → (m1 : PageMap) × (ensure start n m ≡ some (true, m1)) × Covers start (start + n - 1) m m1
unfolding ensure
ensure-Covers start n m small more =
    let end = sub_size (add_size start n) 1 in
    let last : end ≡ start + n - 1 = omega (arith, small, more) in
    let (m1, e, c) =
      ensure_loop-Covers (end / leaf_length - start / leaf_length + 2) start end m
        (omega (arith, last, small, more)) (omega (arith, last, more))
        (omega (arith, last, more)) in
    (m1, e, subst (λ last_page. Covers start last_page m m1) last c)

-- Ensure of a range of page numbers below 2 ^ 35 answers true, and leaves every page number mapped to what it was
-- mapped to; then set of any page number of the range returns, and changes that page number only.
pub ensure-set-get :
    (start n k s : ℕ) (m : PageMap)
    → start + n ≤ 2 ^ bits
    → start ≤ k
    → k < start + n
    → (m1 : PageMap) × (m2 : PageMap) × (ensure start n m ≡ some (true, m1))
      × ((j : ℕ) → get j m1 ≡ get j m)
      × (set k s m1 ≡ returned m2)
      × ((j : ℕ) → get j m2 ≡ (if j == k then s else get j m))
ensure-set-get start n k s m small from to =
    let (m1, e, c) = ensure-Covers start n m small (omega (arith, from, to)) in
    let (m2, done, at, _) =
      get-set k s m1 (omega (arith, small, to)) (c.covers k from (omega (arith, to))) in
    (m1, m2, e, c.same, done, λ j. at j ∙ ground (arith, c.same j))
