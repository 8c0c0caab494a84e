-- ===== src/Memory/PageCache/Buckets.antt =====
-- src/memory/PageCache.hpp: the buckets of free spans, and the small steps that change them.
use network_library.Prelude.{
  ℕ, suc, ◌+◌, ◌^◌, ◌≤◌, ◌<◌, ◌≡◌, sym, ap, ◌∙◌, subst, true, false, List, [], ◌∷◌, arith, ◌==◌,
  Bool-cases, inl, inr,
}
use network_library.Memory.Heap.{Heap, has, distinct}
use network_library.Memory.ObjectPool.{block_bytes}
use network_library.Memory.ObjectPool.Apart.{has-clear, clear_of_all-front}
use network_library.Memory.ObjectPool.Safe.{IsPool, news-IsPool, writes-IsPool, clear_of_live}
use network_library.Memory.PageMap.{PageMap, bits}
use network_library.Memory.PageMap.Leaves.{has_leaf}
use network_library.Memory.PageCache.{
  Span, Pool, span_size, set_page_id, set_span, set_list, push_page_list, initialised,
}
use network_library.Memory.PageCache.Spans.{new_span_object}

-- A span that is not in use and has a number of pages, each with a leaf in the page map.
pub record IsFree (spans : ℕ → Span) (words : Heap) (m : PageMap) (n s : ℕ) : Type 0 where
  pub length : (spans s).npage ≡ n
  pub idle : (spans s).is_use ≡ false
  pub leafy : (j : ℕ) → words s ≤ j → j < words s + n → has_leaf j m ≡ true
  pub low : words s + n ≤ 2 ^ bits

-- The page cache with the span objects that the span pool has handed out. Each bucket holds free spans of its own number
-- of pages, each of them once.
pub record Stocked (pool_memory : ℕ → ℕ) (c : Pool) (live : List ℕ) : Type 0 where
  pub free : List ℕ
  pub owned : IsPool pool_memory span_size c.words c.span_pool live free
  pub known : (i s : ℕ) → has s (c.page_lists i) ≡ true → has s live ≡ true
  pub each : (i s : ℕ) → has s (c.page_lists i) ≡ true → IsFree c.spans c.words c.id_span_map i s
  pub apart : (i : ℕ) → distinct (c.page_lists i) ≡ true

-- A span that is in no bucket.
abbrev pub Absent : ℕ → Pool → Type 0
Absent s c = (i : ℕ) → has s (c.page_lists i) ≡ false

abbrev pub remapped : PageMap → Pool → Pool
remapped m c = record c { id_span_map = m }

abbrev pub relisted : ℕ → List ℕ → Pool → Pool
relisted i spans c = record c { page_lists = set_list i spans c.page_lists }

eq_of : (x s : ℕ) → (x == s) ≡ true → x ≡ s
eq_of x s h = ground (arith, h)

pub other_span :
    (x s : ℕ) (spans : List ℕ) → has x spans ≡ true → has s spans ≡ false → (x == s) ≡ false
other_span x s [] h k = cc
other_span x s (y ∷ spans) h k = ground (arith, h, k, other_span x s spans)

-- Each block of the span pool lies above the one before.
module _ (pool_memory : ℕ → ℕ) (positive : 0 < pool_memory 0)
    (grows : (i : ℕ) → pool_memory i + block_bytes ≤ pool_memory (suc i)) where
  pub remapped-Stocked :
      {c : Pool} {live : List ℕ} (m : PageMap)
      → ((j : ℕ) → has_leaf j c.id_span_map ≡ true → has_leaf j m ≡ true)
      → Stocked pool_memory c live
      → Stocked pool_memory (remapped m c) live
  remapped-Stocked m keeps v = record {
    free = v.free;
    owned = v.owned;
    known = v.known;
    each = λ i s h.
        let f = v.each i s h in
        record {
          length = f.length;
          idle = f.idle;
          leafy = λ j a b. keeps j (f.leafy j a b);
          low = f.low;
        };
    apart = v.apart;
  }

  -- A span that is taken from the front of its bucket is in no bucket.
  pub front-Absent :
      {c : Pool} {live : List ℕ} (i s : ℕ) (rest : List ℕ)
      → c.page_lists i ≡ s ∷ rest
      → Stocked pool_memory c live
      → Absent s (relisted i rest c)
  front-Absent {c} i s rest e v j =
      let here : has s (c.page_lists i) ≡ true = rw e (ground arith) in
      elim (Bool-cases (j == i)) [
        | inl same ↦ rw same (ground (arith, ap distinct (sym e) ∙ v.apart i))
        | inr other ↦ elim (Bool-cases (has s (c.page_lists j))) [
          | inr out ↦ rw other out
          | inl both ↦
              absurd (ground (arith, other, (v.each i s here).length, (v.each j s both).length))
        ]
      ]

  has-rest :
      (lists : ℕ → List ℕ) (i s : ℕ) (rest : List ℕ)
      → lists i ≡ s ∷ rest
      → (j x : ℕ) → has x (set_list i rest lists j) ≡ true
      → has x (lists j) ≡ true
  has-rest lists i s rest e j x h = elim (Bool-cases (j == i)) [
    | inl same ↦
        ap (λ k. has x (lists k)) (ground (arith, same)) ∙ ap (has x) e ∙ ground (arith, same, h)
    | inr other ↦ ground (arith, other, h)
  ]

  pub front-Stocked :
      {c : Pool} {live : List ℕ} (i s : ℕ) (rest : List ℕ)
      → c.page_lists i ≡ s ∷ rest
      → Stocked pool_memory c live
      → Stocked pool_memory (relisted i rest c) live
  front-Stocked {c} i s rest e v = record {
    free = v.free;
    owned = v.owned;
    known = λ j x h. v.known j x (has-rest c.page_lists i s rest e j x h);
    each = λ j x h. v.each j x (has-rest c.page_lists i s rest e j x h);
    apart = λ j. elim (Bool-cases (j == i)) [
      | inl same ↦ rw same (ground (arith, ap distinct (sym e) ∙ v.apart i))
      | inr other ↦ rw other (v.apart j)
    ];
  }

  -- A free span that is in no bucket goes to the front of its own.
  pub hung-Stocked :
      {c : Pool} {live : List ℕ} (n s : ℕ)
      → Stocked pool_memory c live
      → Absent s c
      → has s live ≡ true
      → IsFree c.spans c.words c.id_span_map n s
      → Stocked pool_memory (push_page_list n s c) live
  hung-Stocked {c} {live} n s v out own f = record {
    free = v.free;
    owned = v.owned;
    known = λ j x h. elim (Bool-cases (x == s)) [
      | inl same ↦ subst (λ y. has y live ≡ true) (ground (arith, same)) own
      | inr other ↦ v.known j x (was j x other h)
    ];
    each = λ j x h. elim (Bool-cases (x == s)) [
      | inl same ↦ elim (Bool-cases (j == n)) [
        | inl home ↦
            subst (λ k. IsFree c.spans c.words c.id_span_map k x) (ground (arith, home))
              (subst (IsFree c.spans c.words c.id_span_map n) (ground (arith, same)) f)
        | inr away ↦ absurd (
            ground (arith, away, same, h, out j, ap (λ y. has y (c.page_lists j)) (eq_of x s same)))
      ]
      | inr other ↦ v.each j x (was j x other h)
    ];
    apart = λ j. elim (Bool-cases (j == n)) [
      | inl same ↦ rw same (ground (arith, out n, v.apart n))
      | inr other ↦ rw other (v.apart j)
    ];
  }
    where
      was :
          (j x : ℕ)
          → (x == s) ≡ false
          → has x (set_list n (s ∷ c.page_lists n) c.page_lists j) ≡ true
          → has x (c.page_lists j) ≡ true
      was j x other h = elim (Bool-cases (j == n)) [
        | inl same ↦
            let home : n ≡ j = ground (arith, same) in
            subst (λ k. has x (c.page_lists k) ≡ true) home (ground (arith, same, other, h))
        | inr away ↦ ground (arith, away, h)
      ]

  -- Writes to a span that is in no bucket.
  pub set_page_id-Stocked :
      {c : Pool} {live : List ℕ} (s first : ℕ)
      → Stocked pool_memory c live
      → Absent s c
      → has s live ≡ true
      → Stocked pool_memory (set_page_id s first c) live
  set_page_id-Stocked {c} {live} s first v out own = record {
    free = v.free;
    owned =
        writes-IsPool pool_memory span_size (omega arith) (omega arith) positive grows c.words
          c.span_pool live v.free s first v.owned
          (has-clear span_size s v.free (omega arith) (
            clear_of_live pool_memory span_size (omega arith) (omega arith) positive grows s live
              v.free own v.owned.apart));
    known = v.known;
    each = λ i x h.
        let f = v.each i x h in
        let other : (x == s) ≡ false = other_span x s (c.page_lists i) h (out i) in
        record { length = f.length; idle = f.idle; leafy = rw other f.leafy; low = rw other f.low };
    apart = v.apart;
  }

  pub set_span-Stocked :
      {c : Pool} {live : List ℕ} (s : ℕ) (fields : Span)
      → Stocked pool_memory c live
      → Absent s c
      → Stocked pool_memory (set_span s fields c) live
  set_span-Stocked {c} {live} s fields v out = record {
    free = v.free;
    owned = v.owned;
    known = v.known;
    each = λ i x h.
        let f = v.each i x h in
        let other : (x == s) ≡ false = other_span x s (c.page_lists i) h (out i) in
        record { length = rw other f.length; idle = rw other f.idle; leafy = f.leafy; low = f.low };
    apart = v.apart;
  }

  unknown :
      {c : Pool} {live : List ℕ} (i s : ℕ)
      → has s live ≡ false
      → Stocked pool_memory c live
      → has s (c.page_lists i) ≡ false
  unknown {c} i s new v = ground (arith, new, v.known i s)

  -- A new span object is in no bucket.
  pub new_span_object-Stocked :
      (page_memory : ℕ → ℕ) {c : Pool} {live : List ℕ}
      → Stocked pool_memory c live
      → Absent (new_span_object page_memory pool_memory c).0 c
        × Stocked pool_memory
            (new_span_object page_memory pool_memory c).1
            ((new_span_object page_memory pool_memory c).0 ∷ live)
  unfolding new_span_object
  new_span_object-Stocked page_memory {c} {live} v =
      let (free', pool) =
        news-IsPool pool_memory span_size (omega arith) (omega arith) positive grows c.words
          c.span_pool live v.free v.owned in
      let s = (new_span_object page_memory pool_memory c).0 in
      let new : has s live ≡ false =
        has-clear span_size s live (omega arith)
          (clear_of_all-front span_size s live free' (ground (arith, pool.apart))) in
      let out : Absent s c = λ i. unknown i s new v in
      (
        out,
        set_span-Stocked s (initialised (c.spans s))
            (record {
              free = free';
              owned = pool;
              known = λ i x h. ground (arith, v.known i x h);
              each = v.each;
              apart = v.apart;
            })
            out,
      )
