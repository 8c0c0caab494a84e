-- ===== src/Memory/ObjectPool/Safe.antt =====
-- src/memory/ObjectPool.hpp: a client of the pool never gets an object that overlaps one that it has.
use mathlib.Core.List.{append_assoc}
use network_library.Prelude.{
  ℕ, zero, suc, ◌+◌, ◌≤◌, ◌<◌, ◌≡◌, refl, true, false, ◌&&◌, List, [], ◌∷◌, ◌++◌, Option, none,
  some, ap, sym, ◌∙◌, subst, arith, ltb, ◌==◌, if◌then◌else◌, Bool-cases, inl, inr,
}
use network_library.Prelude.Options.{◌>>=◌, >>=-eq-some, some_inj}
use network_library.Memory.Heap.{Heap, write, has, leads, leads-write}
use network_library.Memory.ObjectPool.{
  ObjectPool, new_pool, block_bytes, refill, cut, new_object, delete_object,
}
use network_library.Memory.ObjectPool.Apart.{
  clear_of_all, all_apart, all_below, remove, remove-middle, all_apart-middle, all_below-middle,
  clear_of_all-append, has-inside, has-clear, all_apart-front, all_below-weaken, clear_of_all-top,
}

-- What a client does: it takes an object, gives back one that it has, or writes into one.
pub data Op : Type 0 where
  news : Op
  deletes : ℕ → Op
  writes : ℕ → ℕ → ℕ → Op

-- The pool with the objects that are handed out, newest first, and those in its free list.
pub record IsPool (sbrk : ℕ → ℕ) (size : ℕ) (h : Heap) (p : ObjectPool) (live free : List ℕ)
    : Type 0 where
  pub chain : leads h p.free_list free 0 ≡ true
  pub apart : all_apart size (live ++ free) ≡ true
  pub below : all_below size p.memory (live ++ free) ≡ true
  pub inside : p.memory + p.remain_bytes ≤ sbrk p.calls
  pub block : 0 < p.remain_bytes → 0 < p.memory

module _ (sbrk : ℕ → ℕ) (size : ℕ) where
  -- The heap, the pool and the objects that are handed out; `none` where the client gives back or writes into what it
  -- has not got.
  unfoldable pub step : Op → Heap → ObjectPool → List ℕ → Option (Heap × ObjectPool × List ℕ)
  step news h p live = let (obj, p') = new_object sbrk size h p in some (h, p', obj ∷ live)
  step (deletes obj) h p live =
      if has obj live
      then (let (h', p') = delete_object obj h p in some (h', p', remove obj live))
      else none
  step (writes obj offset v) h p live =
      if has obj live && ltb offset size then some (write (obj + offset) v h, p, live) else none

  unfoldable pub run : List Op → Heap → ObjectPool → List ℕ → Option (Heap × ObjectPool × List ℕ)
  run [] h p live = some (h, p, live)
  run (op ∷ ops) h p live = step op h p live >>= λ (h', p', live'). run ops h' p' live'

-- Each block lies above the one before, as sbrk moves the program break up.
module _ (sbrk : ℕ → ℕ) (size : ℕ) (some_size : 0 < size) (fits : size ≤ block_bytes)
    (positive : 0 < sbrk 0) (grows : (i : ℕ) → sbrk i + block_bytes ≤ sbrk (suc i)) where
  sbrk-pos : (i : ℕ) → 0 < sbrk i
  sbrk-pos zero = positive
  sbrk-pos (suc i) = omega (arith, sbrk-pos i, grows i)

  -- A pool with room for an object cuts one that is apart from all the others.
  cut-IsPool :
      (h : Heap) (p : ObjectPool) (live : List ℕ)
      → IsPool sbrk size h p live []
      → size ≤ p.remain_bytes
      → IsPool sbrk size h (cut sbrk size p).1 ((cut sbrk size p).0 ∷ live) []
  unfolding cut
  cut-IsPool h p live i room = record {
    chain = i.chain;
    apart = ground (
      arith,
      i.apart,
      clear_of_all-top size p.memory p.memory (live ++ []) (omega arith) i.below,
    );
    below = ground (
      arith,
      room,
      some_size,
      i.block,
      all_below-weaken size p.memory (p.memory + size) (live ++ []),
      i.below,
    );
    inside = omega (arith, i.inside, room);
    block = λ more. omega (arith, some_size);
  }

  refill-IsPool :
      (h : Heap) (p : ObjectPool) (live : List ℕ)
      → IsPool sbrk size h p live []
      → IsPool sbrk size h (refill sbrk size p) live [] × (size ≤ (refill sbrk size p).remain_bytes)
  unfolding refill
  refill-IsPool h p live i = elim (Bool-cases (ltb p.remain_bytes size)) [
    | inr room ↦ rw (room, refill) (i, ground (arith, room))
    | inl short ↦
        rw (short, refill)
          (
            record {
              chain = i.chain;
              apart = i.apart;
              below =
                  all_below-weaken size p.memory (sbrk p.calls) (live ++ [])
                    (omega (arith, i.inside)) i.below;
              inside = grows p.calls;
              block = λ more. sbrk-pos p.calls;
            },
            fits,
          )
  ]

  pub news-IsPool :
      (h : Heap) (p : ObjectPool) (live free : List ℕ)
      → IsPool sbrk size h p live free
      → (free' : List ℕ) × IsPool sbrk size h
          (new_object sbrk size h p).1
          ((new_object sbrk size h p).0 ∷ live)
          free'
  unfolding new_object
  news-IsPool h p live [] i =
      let (j, room) = refill-IsPool h p live i in
      ([], rw (i.chain, new_object) (cut-IsPool h (refill sbrk size p) live j room))
  news-IsPool h p live (f ∷ free) i =
      let some_free : (p.free_list == 0) ≡ false = ground (arith, i.chain) in
      let head : p.free_list ≡ f = ground (arith, i.chain) in
      (
        free,
        rw (some_free, new_object)
            (record {
              chain = ground (arith, i.chain, head);
              apart = ground (arith, head, i.apart, all_apart-middle size live f free);
              below = ground (arith, head, i.below, all_below-middle size p.memory live f free);
              inside = i.inside;
              block = i.block;
            }),
      )

  deletes-IsPool :
      (h : Heap) (p : ObjectPool) (live free : List ℕ) (obj : ℕ)
      → IsPool sbrk size h p live free
      → has obj live ≡ true
      → IsPool sbrk size
          (delete_object obj h p).0
          (delete_object obj h p).1
          (remove obj live)
          (obj ∷ free)
  unfolding delete_object
  deletes-IsPool h p live free obj i h1 =
      let (front, back, e, r) = remove-middle obj live h1 in
      let before : live ++ free ≡ front ++ obj ∷ (back ++ free) =
        ap (λ xs. xs ++ free) e ∙ append_assoc front (obj ∷ back) free in
      let after : remove obj live ++ free ≡ front ++ (back ++ free) =
        ap (λ xs. xs ++ free) r ∙ append_assoc front back free in
      let apart : (clear_of_all size obj (remove obj live ++ free)
            && all_apart size (remove obj live ++ free))
          ≡ true =
        ap (λ xs. clear_of_all size obj xs && all_apart size xs) after
        ∙ sym (all_apart-middle size front obj (back ++ free))
        ∙ ap (all_apart size) (sym before)
        ∙ i.apart in
      let below : all_below size p.memory (obj ∷ (remove obj live ++ free)) ≡ true =
        ap (λ xs. all_below size p.memory (obj ∷ xs)) after
        ∙ sym (all_below-middle size p.memory front obj (back ++ free))
        ∙ ap (all_below size p.memory) (sym before)
        ∙ i.below in
      let new : has obj free ≡ false =
        has-clear size obj free some_size
          (clear_of_all-append size obj (remove obj live) free (ground (arith, apart))) in
      record {
        chain =
            ground (arith, below, new, leads-write h obj p.free_list p.free_list free 0, i.chain);
        apart = all_apart-middle size (remove obj live) obj free ∙ apart;
        below = all_below-middle size p.memory (remove obj live) obj free ∙ below;
        inside = i.inside;
        block = i.block;
      }

  pub writes-IsPool :
      (h : Heap) (p : ObjectPool) (live free : List ℕ) (a v : ℕ)
      → IsPool sbrk size h p live free
      → has a free ≡ false
      → IsPool sbrk size (write a v h) p live free
  writes-IsPool h p live free a v i out = record {
    chain = leads-write h a v p.free_list free 0 out ∙ i.chain;
    apart = i.apart;
    below = i.below;
    inside = i.inside;
    block = i.block;
  }

  pub clear_of_live :
      (a : ℕ) (live free : List ℕ)
      → has a live ≡ true
      → all_apart size (live ++ free) ≡ true
      → clear_of_all size a free ≡ true
  clear_of_live a [] free h k = cc
  clear_of_live a (x ∷ live) free h k = elim (Bool-cases (a == x)) [
    | inl same ↦
        subst (λ b. clear_of_all size b free ≡ true) (ground (arith, same))
          (clear_of_all-append size x live free (ground (arith, k)))
    | inr other ↦ clear_of_live a live free (ground (arith, h, other)) (ground (arith, k))
  ]

  abbrev Kept : Heap × ObjectPool × List ℕ → Type 0
  Kept (h, p, live) = (free : List ℕ) × IsPool sbrk size h p live free

  step-Kept :
      (op : Op) (h : Heap) (p : ObjectPool) (live free : List ℕ)
      {after : Heap × ObjectPool × List ℕ}
      → IsPool sbrk size h p live free
      → step sbrk size op h p live ≡ some after
      → Kept after
  unfolding step
  step-Kept news h p live free i e = subst Kept (some_inj e) (news-IsPool h p live free i)
  step-Kept (deletes obj) h p live free i e = elim (Bool-cases (has obj live)) [
    | inl own ↦
        subst Kept (some_inj (ground (arith, own, e)))
          (obj ∷ free, deletes-IsPool h p live free obj i own)
    | inr other ↦ absurd (ground (arith, other, e))
  ]
  step-Kept (writes obj offset v) h p live free i e =
      elim (Bool-cases (has obj live && ltb offset size)) [
        | inl own ↦ subst Kept (some_inj (ground (arith, own, e))) (
          free,
          writes-IsPool h p live free (obj + offset) v i (
              has-inside size obj offset free (ground (arith, own))
                (clear_of_live obj live free (ground (arith, own)) i.apart)),
        )
        | inr other ↦ absurd (ground (arith, other, e))
      ]

  run-Kept :
      (ops : List Op) (h : Heap) (p : ObjectPool) (live free : List ℕ)
      {after : Heap × ObjectPool × List ℕ}
      → IsPool sbrk size h p live free
      → run sbrk size ops h p live ≡ some after
      → Kept after
  unfolding run
  run-Kept [] h p live free i e = subst Kept (some_inj e) (free, i)
  run-Kept (op ∷ ops) h p live free i e =
      let ((h1, p1, live1), once, rest) = >>=-eq-some (step sbrk size op h p live) _ e in
      let (free1, j) = step-Kept op h p live free i once in run-Kept ops h1 p1 live1 free1 j rest

  -- Whatever a client of a new pool takes, gives back and writes into what it has, the objects that it has at the end
  -- never overlap, if sbrk hands out blocks one above the other and an object is not larger than a block.
  pub run-all_apart :
      (ops : List Op) (h h' : Heap) (p' : ObjectPool) (live' : List ℕ)
      → run sbrk size ops h new_pool [] ≡ some (h', p', live')
      → all_apart size live' ≡ true
  run-all_apart ops h h' p' live' e =
      let (free, i) =
        run-Kept ops h new_pool [] []
          (record {
            chain = refl;
            apart = refl;
            below = refl;
            inside = omega arith;
            block = λ more. absurd (omega (arith, more));
          })
          e in
      all_apart-front size live' free i.apart
