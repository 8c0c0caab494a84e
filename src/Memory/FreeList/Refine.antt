-- ===== src/Memory/FreeList/Refine.antt =====
-- src/memory/common.hpp: a FreeList under push and pop is a stack of objects.
use network_library.Prelude.{
  ℕ, ◌+◌, ◌<◌, ◌≡◌, ap, ◌∙◌, subst, true, false, ◌||◌, List, [], ◌∷◌, Option, none, some, arith,
  length, ◌==◌, Bool-cases, Option-cases, inl, inr,
}
use network_library.Prelude.Words.{size_mod}
use network_library.Memory.Heap.{Heap, Run, returned, ◌>>=◌, has}
use network_library.Memory.FreeList.{FreeList, push, pop}
use network_library.Memory.FreeList.Valid.{Holds, push-Holds, pop-Holds}

-- What a cache does to one of its lists.
pub data Op : Type 0 where
  pushes : ℕ → Op
  pops : Op

-- The objects that the pops return, in order, and the list and heap after them.
unfoldable pub run : List Op → FreeList → Heap → Run (List ℕ × FreeList × Heap)
run [] l h = returned ([], l, h)
run (pushes obj ∷ ops) l h = do (l', h') ← push obj l h; run ops l' h'
run (pops ∷ ops) l h = do
  (obj, l') ← pop l h
  (objs, l'', h') ← run ops l' h
  returned (obj ∷ objs, l'', h')

-- The same of a stack; `none` where the caller breaks the contract, by a pop of nothing or a push of the null pointer
-- or of an object that is in the list.
unfoldable pub run_stack : List Op → List ℕ → Option (List ℕ × List ℕ)
run_stack [] xs = some ([], xs)
run_stack (pushes obj ∷ ops) xs = elim (obj == 0 || has obj xs) [
  | true ↦ none
  | false ↦ run_stack ops (obj ∷ xs)
]
run_stack (pops ∷ ops) [] = none
run_stack (pops ∷ ops) (x ∷ xs) = elim (run_stack ops xs) [
  | none ↦ none
  | some (objs, left) ↦ some (x ∷ objs, left)
]

-- Any sequence of pushes and pops that keeps the contract returns what a stack of the objects returns, and leaves the
-- list holding that stack, if the objects are fewer than 2 ^ 64.
pub run-run_stack :
    (ops : List Op) {h : Heap} {l : FreeList} (xs objs left : List ℕ)
    → Holds h l xs
    → length xs + length ops < size_mod
    → run_stack ops xs ≡ some (objs, left)
    → (l' : FreeList) × (h' : Heap) × (run ops l h ≡ returned (objs, l', h')) × Holds h' l' left
unfolding run run_stack
run-run_stack [] {h} {l} xs objs left v small e = (l, h, cc, subst (Holds h l) (cc) v)
run-run_stack (pushes obj ∷ ops) {h} {l} xs objs left v small e =
    elim (Bool-cases (obj == 0 || has obj xs)) [
      | inl bad ↦ absurd (ground (arith, bad, e))
      | inr good ↦
          let (done, w) =
            push-Holds obj v (ground (arith, good)) (ground (arith, good)) (omega (arith, small)) in
          let (l', h', r, u) =
            run-run_stack ops (obj ∷ xs) objs left w (omega (arith, small))
              (ground (arith, good, e)) in
          (l', h', ap (λ m. m >>= λ (l1, h1). run ops l1 h1) done ∙ r, u)
    ]
run-run_stack (pops ∷ ops) [] objs left v small e = cc
run-run_stack (pops ∷ ops) {h} {l} (x ∷ xs) objs left v small e =
    elim (Option-cases (run_stack ops xs)) [
      | inl broken ↦ absurd (ground (arith, broken, e))
      | inr ((objs1, left1), kept) ↦
          let (done, w) = pop-Holds x v in
          let (l', h', r, u) = run-run_stack ops xs objs1 left1 w (omega (arith, small)) kept in
          (
            l',
            h',
            ap
                  (λ m.
                    m >>= λ (obj, l1). run ops l1 h >>= λ (os, l2, h2). returned (obj ∷ os, l2, h2))
                  done
                ∙ ap (λ m. m >>= λ (os, l2, h2). returned (x ∷ os, l2, h2)) r
                ∙ ap (λ os. returned (os, l', h')) (ground (arith, kept, e)),
            subst (Holds h' l') (ground (arith, kept, e)) u,
          )
    ]
