-- ===== src/Memory/SpanList/Plain.antt =====
-- src/memory/common.hpp: what a cache does to a SpanList, and the same of a plain list of spans.
use network_library.Prelude.{
  ℕ, ◌≡◌, refl, ap, true, false, not, ◌||◌, List, [], ◌∷◌, ◌++◌, Option, none, some, arith, ◌==◌,
  Bool-cases, inl, inr, if◌then◌else◌,
}
use network_library.Memory.Heap.{Run, returned, ◌>>=◌, has}
use network_library.Memory.PageCache
use network_library.Memory.PageCache.{Pool}
use network_library.Memory.SpanList.{Links, insert, erase, push_front, pop_front}

-- What a cache does to one of its span lists: `inserts cur span` puts `span` before `cur`.
pub data Op : Type 0 where
  pushes erases : ℕ → Op
  inserts : ℕ → ℕ → Op
  pops : Op

-- One operation, with the span that it returns.
unfoldable pub step : ℕ → Op → Links → Run (List ℕ × Links)
step head (pushes span) l = push_front head span l >>= λ m. returned ([], m)
step head (erases span) l = erase head span l >>= λ m. returned ([], m)
step head (inserts cur span) l = insert cur span l >>= λ m. returned ([], m)
step head pops l = pop_front head l >>= λ (span, m). returned (span ∷ [], m)

unfoldable pub run : ℕ → List Op → Links → Run (List ℕ × Links)
run head [] l = returned ([], l)
run head (op ∷ ops) l =
    step head op l >>= λ (out, m). run head ops m >>= λ (outs, n). returned (out ++ outs, n)

-- `span` before the first `cur`, or at the end.
unfoldable pub put_before : ℕ → ℕ → List ℕ → List ℕ
put_before cur span [] = span ∷ []
put_before cur span (x ∷ xs) = if cur == x then span ∷ x ∷ xs else x ∷ put_before cur span xs

-- The same of a plain list; `none` where the caller breaks the contract: by a span that is null, the head or in the
-- list already, by a pop of nothing, or by naming a span that is not in the list.
unfoldable pub step_list : ℕ → Op → List ℕ → Option (List ℕ × List ℕ)
step_list head (pushes span) xs = if has span (0 ∷ head ∷ xs) then none else some ([], span ∷ xs)
step_list head (erases span) xs = if has span xs then some ([], PageCache.erase span xs) else none
step_list head (inserts cur span) xs =
    if has span (0 ∷ head ∷ xs) || not (has cur (head ∷ xs))
    then none
    else some ([], put_before cur span xs)
step_list head pops [] = none
step_list head pops (x ∷ xs) = some (x ∷ [], xs)

unfoldable pub run_list : ℕ → List Op → List ℕ → Option (List ℕ × List ℕ)
run_list head [] xs = some ([], xs)
run_list head (op ∷ ops) xs = elim (step_list head op xs) [
  | none ↦ none
  | some (out, ys) ↦ elim (run_list head ops ys) [
    | none ↦ none
    | some (outs, zs) ↦ some (out ++ outs, zs)
  ]
]

-- Where a span stands in a list.
pub record Place (x : ℕ) (xs : List ℕ) : Type 0 where
  pub before : List ℕ
  pub behind : List ℕ
  pub whole : xs ≡ before ++ x ∷ behind
  pub erased : PageCache.erase x xs ≡ before ++ behind
  pub put : (span : ℕ) → put_before x span xs ≡ before ++ span ∷ x ∷ behind

pub has-Place : (x : ℕ) (xs : List ℕ) → has x xs ≡ true → Place x xs
unfolding put_before
has-Place x [] e = cc
has-Place x (y ∷ ys) e = elim (Bool-cases (x == y)) [
  | inl same ↦ record {
    before = [];
    behind = ys;
    whole = ground (arith, same);
    erased = ground (arith, same);
    put = λ span. ground (arith, same);
  }
  | inr other ↦
      let p = has-Place x ys (ground (arith, e, other)) in
      record {
        before = y ∷ p.before;
        behind = p.behind;
        whole = ap (λ zs. y ∷ zs) p.whole;
        erased = rw (other) (ap (λ zs. y ∷ zs) p.erased);
        put = λ span. rw (other) (ap (λ zs. y ∷ zs) (p.put span));
      }
]

-- `span` before the head is `span` at the end.
pub put_before-end :
    (head span : ℕ) (xs : List ℕ) → has head xs ≡ false → put_before head span xs ≡ xs ++ span ∷ []
unfolding put_before
put_before-end head span [] e = refl
put_before-end head span (x ∷ xs) e = ground (arith, e, put_before-end head span xs)
