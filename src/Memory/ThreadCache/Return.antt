-- ===== src/Memory/ThreadCache/Return.antt =====
-- src/memory/ThreadCache.cc: what deallocate does on every list of a thread's cache.
use network_library.Prelude.{
  ℕ, ◌+◌, ◌≤◌, ◌<◌, ◌≡◌, refl, sym, ap, subst, true, false, List, ◌∷◌, some, arith, length, ltb,
  leb, ◌==◌, if◌then◌else◌, Bool-cases, inl, inr,
}
use network_library.Prelude.Words.{size_mod}
use network_library.Memory.SizeClass.{index, max_bytes}
use network_library.Memory.Heap.{Run, returned, aborted, has, write}
use network_library.Memory.FreeList.Valid.{Holds, pushed, push-Holds}
use network_library.Memory.FreeList.Batch.{pop_range-aborted}
use network_library.Memory.ThreadCache.{ThreadCache, put_list, list_to_long, deallocate}

-- What becomes of an object that is given to the list `i`, which holds `xs`: the list holds it in front of the others
-- and no other list changes, if that makes no more objects than its limit; or an assert fails.
pub data Returns (ptr i : ℕ) (xs : List ℕ) (t : ThreadCache) : Run ThreadCache → Type 0 where
  keeps :
      (t' : ThreadCache)
      → length xs < (t.lists i).max_size
      → Holds t'.pool.words (t'.lists i) (ptr ∷ xs)
      → ((j : ℕ) → (j == i) ≡ false → t'.lists j ≡ t.lists j)
      → Returns ptr i xs t (returned t')
  fails : (t.lists i).max_size ≤ length xs → Returns ptr i xs t aborted

list_to_long-aborted :
    (i size : ℕ) (t : ThreadCache)
    → leb (t.lists i).size (t.lists i).max_size ≡ false
    → list_to_long i size t ≡ aborted
unfolding list_to_long
list_to_long-aborted i size t few =
    rw (pop_range-aborted t.pool.words (t.lists i) (t.lists i).max_size few, list_to_long) refl

-- What deallocate decides on, once the object is in the list.
settles :
    (ptr size i : ℕ) (xs : List ℕ) (t t1 : ThreadCache)
    → (t1.lists i).max_size ≡ (t.lists i).max_size
    → Holds t1.pool.words (t1.lists i) (ptr ∷ xs)
    → ((j : ℕ) → (j == i) ≡ false → t1.lists j ≡ t.lists j)
    → Returns ptr i xs t (
        if ltb (t1.lists i).max_size (t1.lists i).size then list_to_long i size t1 else returned t1)
settles ptr size i xs t t1 limit w others =
    elim (Bool-cases (ltb (t1.lists i).max_size (t1.lists i).size)) [
      | inl many ↦
          subst (Returns ptr i xs t)
            (sym (rw many (list_to_long-aborted i size t1 (ground (arith, many)))))
            (fails (ground (arith, many, w.count, limit)))
      | inr few ↦
          subst (λ b. Returns ptr i xs t (if b then list_to_long i size t1 else returned t1))
            (sym few) (keeps t1 (ground (arith, few, w.count, limit)) w others)
    ]

-- deallocate of an object that its list does not hold: on a list below its limit it puts the object in front, and on a
-- list that is at its limit the assert of PopRange fails, which is to take objects back to the central cache.
pub deallocate-Returns :
    (ptr size i : ℕ) (xs : List ℕ) (t : ThreadCache)
    → index size ≡ some i
    → size ≤ max_bytes
    → 0 < ptr
    → Holds t.pool.words (t.lists i) xs
    → has ptr xs ≡ false
    → length xs + 1 < size_mod
    → Returns ptr i xs t (deallocate ptr size t)
unfolding deallocate
deallocate-Returns ptr size i xs t class small some_ptr v new room =
    let (done, w) = push-Holds ptr v (ground (arith, some_ptr)) new room in
    let t1 = put_list i (pushed ptr (t.lists i)) (write ptr (t.lists i).head t.pool.words) t in
    let own : (i == i) ≡ true = ground arith in
    let top : t1.lists i ≡ pushed ptr (t.lists i) = rw own refl in
    let given : (ptr == 0) ≡ false = ground (arith, some_ptr) in
    let fits : leb size max_bytes ≡ true = ground (arith, small) in
    let e : deallocate ptr size t ≡ (
        if ltb (t1.lists i).max_size (t1.lists i).size
        then list_to_long i size t1
        else returned t1) =
      rw (given, fits, class, done) refl in
    subst (Returns ptr i xs t) (sym e) (
      settles ptr size i xs t t1 (ap (λ l. l.max_size) top)
        (subst (λ l. Holds t1.pool.words l (ptr ∷ xs)) (sym top) w) (λ j other. rw other refl))
