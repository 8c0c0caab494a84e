-- ===== src/Memory/SpanList.antt =====
-- src/memory/common.hpp: SpanList, the spans of a bucket as a ring through their `_next` and `_prev`.
--
-- A span is its address, 0 the null pointer. `_head` is a span of its own.
pub mod Ring
pub mod Splice
pub mod Plain
pub mod Refine
mod Tests
use network_library.Prelude.{
  ℕ, zero, suc, Bool, true, false, not, ◌&&◌, Option, none, some, ◌==◌, if◌then◌else◌,
}
use network_library.Memory.Heap.{
  Heap, Run, returned, out_of_fuel, ◌>>=◌, asserting, load, store, write,
}

-- `_next` and `_prev` of every span.
pub record Links : Type 0 where
  pub next : Heap
  pub prev : Heap

-- The constructor, where `new Span` stands at `head`.
abbrev pub init : ℕ → Links → Links
init head l = record { next = write head head l.next; prev = write head head l.prev }

abbrev pub begin : ℕ → Links → ℕ
begin head l = l.next head

abbrev pub is_empty : ℕ → Links → Bool
is_empty head l = l.next head == head

unfoldable pub insert : ℕ → ℕ → Links → Run Links
insert cur newspan l = asserting (not (cur == 0)) (
    asserting (not (newspan == 0)) (do
      prev ← load cur l.prev
      n1 ← store prev newspan l.next
      p1 ← store newspan prev l.prev
      n2 ← store newspan cur n1
      p2 ← store cur newspan p1
      returned (record { next = n2; prev = p2 })))

unfoldable pub erase : ℕ → ℕ → Links → Run Links
erase head cur l = asserting (not (cur == 0)) (
    asserting (not (cur == head)) (do
      prev ← load cur l.prev
      next ← load cur l.next
      n1 ← store prev next l.next
      p1 ← store next prev l.prev
      returned (record { next = n1; prev = p1 })))

unfoldable pub push_front : ℕ → ℕ → Links → Run Links
push_front head span l = insert (begin head l) span l

unfoldable pub pop_front : ℕ → Links → Run (ℕ × Links)
pop_front head l = do front ← load head l.next; l' ← erase head front l; returned (front, l')

-- The loop of `CentralCache::get_one_Span` from `begin()` to `end()`, in so many rounds at most: the first span whose
-- `_objlist` is not null.
unfoldable pub find_usable : (ℕ → ℕ) → ℕ → ℕ → ℕ → Links → Run (Option ℕ)
find_usable objlist zero head it l = if it == head then returned none else out_of_fuel
find_usable objlist (suc fuel) head it l = elim (it == head) [
  | true ↦ returned none
  | false ↦ load it objlist >>= λ objs. elim (objs == 0) [
    | false ↦ returned (some it)
    | true ↦ load it l.next >>= λ next. find_usable objlist fuel head next l
  ]
]
