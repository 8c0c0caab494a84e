-- ===== src/Memory/SpanList/Refine.antt =====
-- src/memory/common.hpp: a SpanList is a list of spans, the one that the page cache is modelled with.
use network_library.Prelude.{
  ℕ, zero, suc, ◌≤◌, ◌≡◌, refl, sym, ap, ◌∙◌, subst, true, false, List, [], ◌∷◌, ◌++◌, Option, some,
  arith, length, ◌==◌, Bool-cases, Option-cases, inl, inr,
}
use mathlib.Core.List.{append-nil}
use network_library.Prelude.Options.{some_inj}
use network_library.Memory.Heap.{Run, returned, ◌>>=◌, has}
use network_library.Memory.PageCache.{Pool}
use network_library.Memory.CentralCache.{usable_span}
use network_library.Memory.SpanList.{
  Links, begin, is_empty, insert, push_front, pop_front, find_usable,
}
use network_library.Memory.SpanList.Ring.{Rings, linked, bridged, front, linked-next}
use network_library.Memory.SpanList.Splice.{insert-Rings, erase-Rings}
use network_library.Memory.SpanList.Plain.{
  Op, pushes, erases, inserts, pops, step, run, step_list, run_list, has-Place, put_before-end,
}

module _ (head : ℕ) where
  abbrev Steps : Op → Links → List ℕ → List ℕ → Type 0
  Steps op l out ys = (m : Links) × (step head op l ≡ returned (out, m)) × Rings head m ys

  -- An insertion before the span that `zs` begins with, or before the head.
  insert-Steps :
      {l : Links} (ys zs : List ℕ) (cur span : ℕ)
      → Rings head l (ys ++ zs)
      → cur ≡ front head zs
      → has span (0 ∷ head ∷ ys ++ zs) ≡ false
      → (m : Links) × (insert cur span l ≡ returned m) × Rings head m (ys ++ span ∷ zs)
  insert-Steps {l} ys zs cur span v e new =
      let (done, w) = insert-Rings ys zs span v (ground (arith, new)) (ground (arith, new)) in
      (_, ap (λ c. insert c span l) e ∙ done, w)

  abbrev silent : List ℕ → Option (List ℕ × List ℕ)
  silent ys = some ([], ys)

  abbrev silently : Links → Run (List ℕ × Links)
  silently l = returned ([], l)

  -- An operation that returns no span.
  quiet :
      {r : Run Links} {m : Links} (zs out ys : List ℕ)
      → r ≡ returned m
      → Rings head m zs
      → silent zs ≡ some (out, ys)
      → (n : Links) × ((r >>= silently) ≡ returned (out, n)) × Rings head n ys
  quiet {r} {m} zs out ys done w e =
      let same = some_inj e in
      (
        m,
        ap (λ k. k >>= silently) done ∙ ap (λ o. returned (o, m)) (ap (λ p. p.0) same),
        subst (Rings head m) (ap (λ p. p.1) same) w,
      )

  step-step_list :
      (op : Op) {l : Links} (xs out ys : List ℕ)
      → Rings head l xs
      → step_list head op xs ≡ some (out, ys)
      → Steps op l out ys
  unfolding step step_list push_front pop_front
  step-step_list (pushes span) {l} xs out ys v e = elim (Bool-cases (has span (0 ∷ head ∷ xs))) [
    | inl bad ↦ absurd (ground (arith, bad, e))
    | inr new ↦
        let (m, done, w) =
          insert-Steps [] xs (begin head l) span v (linked-next l head xs head v.ring) new in
        quiet (span ∷ xs) out ys done w (ground (arith, e, new))
  ]
  step-step_list (erases span) {l} xs out ys v e = elim (Bool-cases (has span xs)) [
    | inr bad ↦ absurd (ground (arith, bad, e))
    | inl old ↦
        let p = has-Place span xs old in
        let (done, w) = erase-Rings p.before span p.behind (subst (Rings head l) p.whole v) in
        quiet (p.before ++ p.behind) out ys done w (ground (arith, e, old, p.erased))
  ]
  step-step_list (inserts cur span) {l} xs out ys v e =
      elim (Bool-cases (has span (0 ∷ head ∷ xs))) [
        | inl bad ↦ absurd (ground (arith, bad, e))
        | inr new ↦ elim (Bool-cases (cur == head)) [
          | inl last ↦
              let (m, done, w) =
                insert-Steps xs [] cur span (subst (Rings head l) (sym (append-nil xs)) v)
                  (ground (arith, last)) (ground (arith, new, append-nil xs)) in
              quiet (xs ++ span ∷ []) out ys done w
                (ground (arith, e, new, last, put_before-end head span xs, v.apart))
          | inr other ↦ elim (Bool-cases (has cur xs)) [
            | inr bad ↦ absurd (ground (arith, bad, other, new, e))
            | inl old ↦
                let p = has-Place cur xs old in
                let (m, done, w) =
                  insert-Steps p.before (cur ∷ p.behind) cur span (subst (Rings head l) p.whole v)
                    refl (ground (arith, new, p.whole)) in
                quiet (p.before ++ span ∷ cur ∷ p.behind) out ys done w
                  (ground (arith, e, old, new, other, p.put span))
          ]
        ]
      ]
  step-step_list pops {l} [] out ys v e = cc
  step-step_list pops {l} (x ∷ xs) out ys v e =
      let (done, w) = erase-Rings [] x xs v in
      (
        bridged (l.prev x) (l.next x) l,
        ground (arith, e, v.real, linked-next l head (x ∷ xs) head v.ring, done),
        subst (Rings head (bridged (l.prev x) (l.next x) l)) (ground (arith, e)) w,
      )

  -- The loop of get_one_Span finds in the ring what it should in the list.
  find_usable-linked :
      (c : Pool) (l : Links) (it : ℕ) (xs : List ℕ) (fuel : ℕ)
      → linked l it xs head ≡ true
      → has head xs ≡ false
      → has 0 xs ≡ false
      → length xs ≤ fuel
      → find_usable (λ s. (c.spans s).objlist) fuel head (l.next it) l ≡ returned (usable_span xs c)
  unfolding find_usable usable_span
  find_usable-linked c l it [] zero e out real enough = ground (arith, e)
  find_usable-linked c l it [] (suc fuel) e out real enough = ground (arith, e)
  find_usable-linked c l it (x ∷ xs) zero e out real enough = absurd (omega (arith, enough))
  find_usable-linked c l it (x ∷ xs) (suc fuel) e out real enough =
      elim (Bool-cases ((c.spans x).objlist == 0)) [
        | inl used_up ↦ ground (
          arith,
          e,
          out,
          real,
          used_up,
          find_usable-linked c l x xs fuel (ground (arith, e)) (ground (arith, out))
              (ground (arith, real)) (omega (arith, enough)),
        )
        | inr usable ↦ ground (arith, e, out, real, usable)
      ]

  Rings-is_empty : (m : Links) (ys : List ℕ) → Rings head m ys → is_empty head m ≡ (length ys == 0)
  Rings-is_empty m [] w = ground (arith, w.ring)
  Rings-is_empty m (y ∷ ys) w = ground (arith, w.ring, w.apart)

  Rings-find_usable :
      (c : Pool) (m : Links) (ys : List ℕ)
      → Rings head m ys
      → find_usable (λ s. (c.spans s).objlist) (length ys) head (begin head m) m
        ≡ returned (usable_span ys c)
  Rings-find_usable c m ys w =
      find_usable-linked c m head ys (length ys) w.ring (ground (arith, w.apart))
        (ground (arith, w.real)) (omega arith)

  run-Rings :
      (ops : List Op) {l : Links} (xs outs ys : List ℕ)
      → Rings head l xs
      → run_list head ops xs ≡ some (outs, ys)
      → (m : Links) × (run head ops l ≡ returned (outs, m)) × Rings head m ys
  unfolding run run_list
  run-Rings [] {l} xs outs ys v e =
      (l, ground (arith, e), subst (Rings head l) (ground (arith, e)) v)
  run-Rings (op ∷ ops) {l} xs outs ys v e = elim (Option-cases (step_list head op xs)) [
    | inl broken ↦ absurd (ground (arith, broken, e))
    | inr ((out, us), kept) ↦ elim (Option-cases (run_list head ops us)) [
      | inl broken ↦ absurd (ground (arith, kept, broken, e))
      | inr ((outs1, zs), kept1) ↦
          let (m, done, w) = step-step_list op xs out us v kept in
          let (n, r, u) = run-Rings ops us outs1 zs w kept1 in
          (
            n,
            ap (λ k. k >>= λ (o, m1). run head ops m1 >>= λ (os, n1). returned (o ++ os, n1)) done
                ∙ ap (λ k. k >>= λ (os, n1). returned (out ++ os, n1)) r
                ∙ ap (λ os. returned (os, n)) (ground (arith, kept, kept1, e)),
            subst (Rings head n) (ground (arith, kept, kept1, e)) u,
          )
    ]
  ]

  -- Any sequence of push_front, pop_front, insert and erase that keeps the contract of the list returns the spans that
  -- a plain list returns, and leaves that list in the ring; empty tells whether it is empty, and the loop of get_one_Span
  -- from begin to end ends, at the first span of the list that has objects.
  pub run-run_list :
      (ops : List Op) {l : Links} (xs outs ys : List ℕ) (c : Pool)
      → Rings head l xs
      → run_list head ops xs ≡ some (outs, ys)
      → (m : Links) × (run head ops l ≡ returned (outs, m))
        × Rings head m ys
        × (find_usable (λ s. (c.spans s).objlist) (length ys) head (begin head m) m
            ≡ returned (usable_span ys c))
        × (is_empty head m ≡ (length ys == 0))
  run-run_list ops xs outs ys c v e =
      let (m, done, w) = run-Rings ops xs outs ys v e in
      (m, done, w, Rings-find_usable c m ys w, Rings-is_empty m ys w)
