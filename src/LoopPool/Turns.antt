-- ===== src/LoopPool/Turns.antt =====
-- src/net/EventLoopThreadPool.cc: the order in which getNextLoop hands out the loops.
use network_library.Prelude.{
  ℕ, zero, suc, ◌+◌, ◌<◌, ◌≡◌, refl, ap, sym, ◌∙◌, List, [], ◌∷◌, ◌++◌, arith, length, get_or, leb,
  if◌then◌else◌, replicate, length-append, ap₂,
}
use mathlib.Core.List.{append_assoc}
use network_library.LoopPool.{Pool, new_pool, set_thread_num, started_loops, start, get_next_loop}

-- What the next calls return.
unfoldable pub handed_out : ℕ → Pool → List ℕ
handed_out zero p = []
handed_out (suc n) p = let (loop, p') = get_next_loop p in loop ∷ handed_out n p'

get_next_loop_lem :
    (p : Pool)
    → 0 < length p.loops
    → get_next_loop p ≡ (
      get_or p.loops p.next 0,
      record p { next = if leb (length p.loops) (p.next + 1) then 0 else p.next + 1 },
    )
unfolding get_next_loop
get_next_loop_lem p h = on p.loops h
  where
    on :
        (xs : List ℕ)
        → 0 < length xs
        → get_next_loop (record p { loops = xs }) ≡ (
          get_or xs p.next 0,
          record p { loops = xs; next = if leb (length xs) (p.next + 1) then 0 else p.next + 1 },
        )
    on [] k = absurd (omega (arith, k))
    on (x ∷ xs) k = refl

handed_out-suc :
    (n : ℕ) (p : Pool)
    → 0 < length p.loops
    → handed_out (suc n) p
      ≡ get_or p.loops p.next 0
        ∷ handed_out n
            (record p { next = if leb (length p.loops) (p.next + 1) then 0 else p.next + 1 })
unfolding handed_out
handed_out-suc n p h = ap (λ (loop, p'). loop ∷ handed_out n p') (get_next_loop_lem p h)

get_or-append : (front back : List ℕ) (x : ℕ) → get_or (front ++ x ∷ back) (length front) 0 ≡ x
get_or-append [] back x = refl
get_or-append (y ∷ front) back x = get_or-append front back x

-- From the loop behind `front` on, the calls hand out the rest and begin again.
handed_out-rest :
    (front back : List ℕ) (p : Pool) (rounds : ℕ)
    → p.loops ≡ front ++ back
    → p.next ≡ length front
    → 0 < length back
    → handed_out (length back + rounds) p ≡ back ++ handed_out rounds (record p { next = 0 })
handed_out-rest front [] p rounds e n h = absurd (omega (arith, h))
handed_out-rest front (x ∷ []) p rounds e n h =
    ap (λ k. handed_out k p) (omega arith)
    ∙ handed_out-suc rounds p (omega (arith, ap length e, length-append front (x ∷ [])))
    ∙ ap₂ (λ loop m. loop ∷ handed_out rounds (record p { next = m }))
        (ap₂ (λ xs i. get_or xs i 0) e n ∙ get_or-append front [] x)
        (ground (arith, ap length e, length-append front (x ∷ []), n))
handed_out-rest front (x ∷ y ∷ back) p rounds e n h =
    ap (λ k. handed_out k p) (omega arith)
    ∙ handed_out-suc (length (y ∷ back) + rounds) p
        (omega (arith, ap length e, length-append front (x ∷ y ∷ back)))
    ∙ ap₂ (λ loop m. loop ∷ handed_out (length (y ∷ back) + rounds) (record p { next = m }))
        (ap₂ (λ xs i. get_or xs i 0) e n ∙ get_or-append front (y ∷ back) x)
        (ground (arith, ap length e, length-append front (x ∷ y ∷ back), n))
    ∙ ap (λ xs. x ∷ xs)
        (handed_out-rest (front ++ x ∷ []) (y ∷ back) (record p { next = p.next + 1 }) rounds
          (e ∙ sym (append_assoc front (x ∷ []) (y ∷ back)))
          (omega (arith, n, length-append front (x ∷ []))) (omega arith))

-- From a pool at its first loop, as many calls of getNextLoop as there are loops hand out each loop once, in the order
-- in which they were started, and the calls after them begin again.
pub handed_out_lem :
    (p : Pool) (rounds : ℕ)
    → p.next ≡ 0
    → 0 < length p.loops
    → handed_out (length p.loops + rounds) p ≡ p.loops ++ handed_out rounds p
handed_out_lem p rounds h k =
    handed_out-rest [] p.loops p rounds refl h k
    ∙ ap (λ m. p.loops ++ handed_out rounds (record p { next = m })) (sym h)

-- Whatever number of threads setThreadNum is given, a new pool starts none: every call of getNextLoop returns the base
-- loop.
pub handed_out-base_loop :
    (start_loop : ℕ → ℕ) (base_loop threads calls : ℕ)
    → handed_out calls (start start_loop (set_thread_num threads (new_pool base_loop)))
      ≡ replicate calls base_loop
unfolding handed_out get_next_loop start started_loops set_thread_num
handed_out-base_loop start_loop base_loop threads zero = refl
handed_out-base_loop start_loop base_loop threads (suc calls) =
    ap (λ xs. base_loop ∷ xs) (handed_out-base_loop start_loop base_loop threads calls)
