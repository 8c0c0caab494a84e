-- ===== src/Memory/PageCache/Request.antt =====
-- src/memory/PageCache.cc: new_Span for fewer pages than there are buckets.
use network_library.Prelude.{
  ℕ, zero, suc, ◌+◌, ◌-◌, ◌/◌, ◌^◌, ◌≤◌, ◌<◌, ◌≡◌, refl, sym, ap, ◌∙◌, subst, true, false, List, [],
  ◌∷◌, arith, Option, none, some, ltb, leb, ◌==◌, Bool-cases, List-cases, inl, inr,
}
use network_library.Memory.SizeClass.{npages, page_shift}
use network_library.Memory.Heap.{Run}
use network_library.Memory.ObjectPool.{block_bytes}
use network_library.Memory.PageMap.{bits}
use network_library.Memory.PageCache.{Pool, first_bucket}
use network_library.Memory.PageCache.Spans.{whole_span, split_span, grow, new_span}
use network_library.Memory.PageCache.Buckets.{Stocked}
use network_library.Memory.PageCache.Supply.{Supplied, whole-Supplied, split-Supplied}
use network_library.Memory.PageCache.Block.{grow-Stocked}

cons_not_nil : {x : ℕ} {xs : List ℕ} → ¬ (x ∷ xs ≡ [])
cons_not_nil e = cc

eq_of : (k n : ℕ) → (k == n) ≡ true → k ≡ n
eq_of k n h = ground (arith, h)

weaken :
    {pool_memory : ℕ → ℕ} {num : ℕ} {live : List ℕ} {r : Run (ℕ × Pool)} (span : ℕ)
    → Supplied pool_memory num (span ∷ live) r
    → Supplied pool_memory num live r
weaken span s = record {
  span = s.span;
  after = s.after;
  live' = s.live';
  returns = s.returns;
  stocked = s.stocked;
  own = s.own;
  keeps = λ x h. s.keeps x (ground (arith, h));
  out = s.out;
  length = s.length;
  found = s.found;
}

-- The first bucket that is not empty, if there is one.
data Finds (i n : ℕ) (lists : ℕ → List ℕ) : Option (ℕ × ℕ × List ℕ) → Type 0 where
  finds :
      (j s : ℕ) (rest : List ℕ)
      → i ≤ j
      → j < i + n
      → lists j ≡ s ∷ rest
      → Finds i n lists (some (j, s, rest))
  nothing : ((j : ℕ) → i ≤ j → j < i + n → lists j ≡ []) → Finds i n lists none

first_bucket-Finds : (n i : ℕ) (lists : ℕ → List ℕ) → Finds i n lists (first_bucket n i lists)
unfolding first_bucket
first_bucket-Finds zero i lists = nothing (λ j a b. absurd (omega (arith, a, b)))
first_bucket-Finds (suc n) i lists = elim (List-cases (lists i)) [
  | inr (s, rest, e) ↦
      subst
        (λ spans.
          Finds i (suc n) lists
            (elim spans [ x ∷ xs ↦ some (i, x, xs) | [] ↦ first_bucket n (i + 1) lists ]))
        (sym e) (finds i s rest (omega arith) (omega arith) e)
  | inl e ↦
      subst
        (λ spans.
          Finds i (suc n) lists
            (elim spans [ x ∷ xs ↦ some (i, x, xs) | [] ↦ first_bucket n (i + 1) lists ]))
        (sym e) (later (first_bucket n (i + 1) lists) e (first_bucket-Finds n (i + 1) lists))
]
  where
    later :
        (r : Option (ℕ × ℕ × List ℕ))
        → lists i ≡ []
        → Finds (i + 1) n lists r
        → Finds i (suc n) lists r
    later _ e (finds j s rest a b f) = finds j s rest (omega (arith, a)) (omega (arith, b)) f
    later _ e (nothing none_later) = nothing (λ j a b. elim (Bool-cases (j == i)) [
      | inl same ↦ ap lists (ground (arith, same)) ∙ e
      | inr other ↦ none_later j (ground (arith, other, a)) (omega (arith, b))
    ])

module _ (page_memory pool_memory : ℕ → ℕ) (positive : 0 < pool_memory 0)
    (grows : (i : ℕ) → pool_memory i + block_bytes ≤ pool_memory (suc i)) where
  new_span-whole :
      (fuel n span : ℕ) (rest : List ℕ) (c : Pool)
      → suc n < npages
      → c.page_lists (suc n) ≡ span ∷ rest
      → new_span page_memory pool_memory (suc fuel) (suc n) c
        ≡ whole_span page_memory pool_memory (suc n) span rest c
  unfolding new_span
  new_span-whole fuel n span rest c few e =
      let short : leb npages (suc n) ≡ false = ground (arith, few) in
      let some_pages : ltb 0 (suc n) ≡ true = ground arith in rw (some_pages, short, e) refl

  new_span-empty :
      (fuel n : ℕ) (c : Pool)
      → suc n < npages
      → c.page_lists (suc n) ≡ []
      → new_span page_memory pool_memory (suc fuel) (suc n) c
        ≡ (elim (first_bucket (npages - (suc n + 1)) (suc n + 1) c.page_lists) [
          | some (i, span, rest) ↦ split_span page_memory pool_memory (suc n) i span rest c
          | none ↦ new_span page_memory pool_memory fuel (suc n) (grow page_memory pool_memory c)
        ])
  unfolding new_span
  new_span-empty fuel n c few e =
      let short : leb npages (suc n) ≡ false = ground (arith, few) in
      let some_pages : ltb 0 (suc n) ≡ true = ground arith in rw (some_pages, short, e) refl

  -- Where some bucket from `num` on is not empty.
  served :
      {c : Pool} {live : List ℕ} (fuel n k s : ℕ) (more : List ℕ)
      → suc n ≤ k
      → k < npages
      → c.page_lists k ≡ s ∷ more
      → Stocked pool_memory c live
      → Supplied pool_memory (suc n) live (new_span page_memory pool_memory (suc fuel) (suc n) c)
  served {c} {live} fuel n k s more from below e v = elim (List-cases (c.page_lists (suc n))) [
    | inr (span, rest, own) ↦
        subst (Supplied pool_memory (suc n) live)
          (sym (new_span-whole fuel n span rest c (omega (arith, from, below)) own))
          (whole-Supplied page_memory pool_memory positive grows n span rest own v)
    | inl empty ↦
        subst (Supplied pool_memory (suc n) live)
          (sym (new_span-empty fuel n c (omega (arith, from, below)) empty))
          (longer _ empty (first_bucket-Finds (npages - (suc n + 1)) (suc n + 1) c.page_lists))
  ]
    where
      longer :
          (r : Option (ℕ × ℕ × List ℕ))
          → c.page_lists (suc n) ≡ []
          → Finds (suc n + 1) (npages - (suc n + 1)) c.page_lists r
          → Supplied pool_memory (suc n) live (elim r [
            | some (i, span, rest) ↦ split_span page_memory pool_memory (suc n) i span rest c
            | none ↦ new_span page_memory pool_memory fuel (suc n) (grow page_memory pool_memory c)
          ])
      longer _ empty (finds j span rest a b f) =
          split-Supplied page_memory pool_memory positive grows n j span rest f (omega (arith, a))
            (omega (arith, b)) v
      longer _ empty (nothing none_later) = elim (Bool-cases (k == suc n)) [
        | inl same ↦ absurd (cons_not_nil (sym e ∙ ap c.page_lists (eq_of k (suc n) same) ∙ empty))
        | inr other ↦ absurd (
            cons_not_nil
              (sym e ∙ none_later k (ground (arith, other, from)) (omega (arith, below))))
      ]

  -- new_Span for a positive number of pages below that of the buckets, on a stocked page cache, returns a span of that
  -- many pages that is in no bucket and to which its first page is mapped, and leaves the page cache stocked, if the
  -- next block that the system would give has page numbers of the page map.
  pub new_span-Supplied :
      {c : Pool} {live : List ℕ} (n : ℕ)
      → suc n < npages
      → page_memory c.page_calls / 2 ^ page_shift + 2 ^ 20 ≤ 2 ^ bits
      → Stocked pool_memory c live
      → Supplied pool_memory (suc n) live (new_span page_memory pool_memory 2 (suc n) c)
  new_span-Supplied {c} {live} n few low v = elim (List-cases (c.page_lists (suc n))) [
    | inr (span, rest, own) ↦ served 1 n (suc n) span rest (omega arith) few own v
    | inl empty ↦
        subst (Supplied pool_memory (suc n) live) (sym (new_span-empty 1 n c few empty))
          (longer _ (first_bucket-Finds (npages - (suc n + 1)) (suc n + 1) c.page_lists))
  ]
    where
      longer :
          (r : Option (ℕ × ℕ × List ℕ))
          → Finds (suc n + 1) (npages - (suc n + 1)) c.page_lists r
          → Supplied pool_memory (suc n) live (elim r [
            | some (i, span, rest) ↦ split_span page_memory pool_memory (suc n) i span rest c
            | none ↦ new_span page_memory pool_memory 1 (suc n) (grow page_memory pool_memory c)
          ])
      longer _ (finds j span rest a b f) =
          split-Supplied page_memory pool_memory positive grows n j span rest f (omega (arith, a))
            (omega (arith, b)) v
      longer _ (nothing none_later) =
          let (span, w, front) = grow-Stocked page_memory pool_memory positive grows low v in
          weaken span (
            served 0 n (npages - 1) span (c.page_lists (npages - 1)) (omega (arith, few))
              (omega arith) front w)
