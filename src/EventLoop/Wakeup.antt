-- ===== src/EventLoop/Wakeup.antt =====
-- src/net/EventLoop.cc: no functor waits for a loop that nobody wakes, and each runs once, in its turn.
use network_library.Prelude.{
  ℕ, ◌+◌, ◌<◌, ◌≡◌, ◌≢◌, refl, sym, ◌∙◌, ap, Bool, true, false, not, ◌||◌, List, [], ◌∷◌, ◌++◌,
  ◌==◌, arith, length, if◌then◌else◌, Bool-cases, inl, inr,
}
use mathlib.Core.List.{append_assoc, append-nil}
use network_library.EventLoop.{
  EventLoop, is_in_loop_thread, request_quit, announce_quit, wakeup, emplace, announce,
  queue_in_loop, take_functors, finish_functors,
}
use network_library.EventLoop.Steps.{Phase, polling, handling, calling, World, Step, Reach, start}

abbrev pub is_calling : Phase → Bool
is_calling calling = true
is_calling _ = false

abbrev pub is_handling : Phase → Bool
is_handling handling = true
is_handling _ = false

-- Between the handlers, functors that wait have a wakeup that is there or about to come.
pub record IsAwake (tid : ℕ → ℕ) (w : World) : Type 0 where
  pub own : w.loop.thread_id ≡ tid 0
  pub flag : w.loop.calling_pending_functors ≡ is_calling w.phase
  pub woken :
      is_handling w.phase ≡ false
      → 0 < length w.loop.pending_functors
      → 0 < w.loop.wakeup_fd + length w.announcing

module _ (tid : ℕ → ℕ) (uses : ℕ → Bool)
    (distinct : (t : ℕ) → t ≢ 0 → uses t ≡ true → tid t ≢ tid 0) where
  Step-IsAwake : {w v : World} → IsAwake tid w → Step tid uses w v → IsAwake tid v
  unfolding announce queue_in_loop take_functors finish_functors announce_quit
  Step-IsAwake i (Step.starts_loop w p) = ground (arith, i.own, i.flag, i.woken, p)
  Step-IsAwake i (Step.tests_quit w p) = elim (Bool-cases w.loop.quit) [
    | inl leaves ↦ ground (arith, i.own, i.flag, i.woken, p, leaves)
    | inr stays ↦ ground (arith, i.own, i.flag, i.woken, p, stays)
  ]
  Step-IsAwake i (Step.poll_returns w p) = ground (arith, i.own, i.flag, i.woken, p)
  Step-IsAwake i (Step.handles_wakeup w p) = ground (arith, i.own, i.flag, i.woken, p)
  Step-IsAwake i (Step.handler_queues f w p) = ground (arith, i.own, i.flag, i.woken, p)
  Step-IsAwake i (Step.starts_functors w p) = ground (arith, i.own, i.flag, i.woken, p)
  Step-IsAwake i (Step.calls f rest w p e) = ground (arith, i.own, i.flag, i.woken, p)
  Step-IsAwake i (Step.functor_queues f w p) = ground (arith, i.own, i.flag, i.woken, p)
  Step-IsAwake i (Step.ends_functors w p e) = ground (arith, i.own, i.flag, i.woken, p)
  Step-IsAwake i (Step.other_emplaces t f w o u) = ground (arith, i.own, i.flag, i.woken)
  Step-IsAwake i (Step.other_announces t before after w o u e) =
      let apart : (w.loop.thread_id == tid t) ≡ false = ground (arith, i.own, distinct t o u) in
      ground (arith, i.own, i.flag, apart)
  Step-IsAwake i (Step.own_quits w p) = ground (arith, i.own, i.flag, i.woken)
  Step-IsAwake i (Step.other_quits t w o u) = ground (arith, i.own, i.flag, i.woken)
  Step-IsAwake i (Step.other_ends_quit t before after w o u e) =
      let apart : (w.loop.thread_id == tid t) ≡ false = ground (arith, i.own, distinct t o u) in
      ground (arith, i.own, i.flag, i.woken, apart)

  Reach-IsAwake : {w v : World} → IsAwake tid w → Reach tid uses w v → IsAwake tid v
  Reach-IsAwake i Reach.here = i
  Reach-IsAwake i (Reach.then r s) = Step-IsAwake (Reach-IsAwake i r) s

  -- Where every other thread that uses the loop has an id other than that of the loop's thread, as where there is no
  -- such thread, no interleaving of the loop with these threads and with its own handlers and functors brings the loop to
  -- its poll with functors in the queue, unless the eventfd is readable or a thread is about to test whether to write to it.
  pub no_lost_wakeup :
      (w : World)
      → Reach tid uses (start tid) w
      → w.phase ≡ polling
      → 0 < length w.loop.pending_functors
      → 0 < w.loop.wakeup_fd + length w.announcing
  no_lost_wakeup w r p waiting =
      (Reach-IsAwake (record { own = refl; flag = refl; woken = λ _ few. omega arith }) r).woken
        (cc p) waiting

-- The functors that ran, those that are being run and those that wait.
abbrev pub in_turn : EventLoop → List ℕ
in_turn l = l.ran ++ (l.functors ++ l.pending_functors)

abbrev pub IsInTurn : World → Type 0
IsInTurn w = (w.queued ≡ in_turn w.loop) × (is_calling w.phase ≡ false → w.loop.functors ≡ [])

announce-functors :
    (t : ℕ) (l : EventLoop)
    → (in_turn (announce t l) ≡ in_turn l) × ((announce t l).functors ≡ l.functors)
unfolding announce
announce-functors t l = either (not (is_in_loop_thread t l) || l.calling_pending_functors)
  where
    either :
        (test : Bool)
        → (in_turn (if test then wakeup l else l) ≡ in_turn l)
          × ((if test then wakeup l else l).functors ≡ l.functors)
    either true = (refl, refl)
    either false = (refl, refl)

announce_quit-functors :
    (t : ℕ) (l : EventLoop)
    → (in_turn (announce_quit t l) ≡ in_turn l) × ((announce_quit t l).functors ≡ l.functors)
unfolding announce_quit
announce_quit-functors t l = elim (Bool-cases (l.thread_id == t)) [
  | inl inside ↦ rw inside (refl, refl)
  | inr outside ↦ rw outside (refl, refl)
]

emplace-in_turn : (f : ℕ) (l : EventLoop) → in_turn (emplace f l) ≡ in_turn l ++ f ∷ []
emplace-in_turn f l =
    ap (λ xs. l.ran ++ xs) (sym (append_assoc l.functors l.pending_functors (f ∷ [])))
    ∙ sym (append_assoc l.ran (l.functors ++ l.pending_functors) (f ∷ []))

announce-IsInTurn :
    (t : ℕ) (w : World) (others : List ℕ)
    → IsInTurn w
    → IsInTurn (record w { loop = announce t w.loop; announcing = others })
announce-IsInTurn t w others (o, n) =
    let (same, left) = announce-functors t w.loop in (o ∙ sym same, λ p. left ∙ n p)

emplace-IsInTurn :
    (f : ℕ) (w : World) (threads : List ℕ)
    → IsInTurn w
    → IsInTurn
        (record w { loop = emplace f w.loop; announcing = threads; queued = w.queued ++ f ∷ [] })
emplace-IsInTurn f w threads (o, n) =
    (ap (λ xs. xs ++ f ∷ []) o ∙ sym (emplace-in_turn f w.loop), n)

module _ (tid : ℕ → ℕ) (uses : ℕ → Bool) where
  Step-IsInTurn : {w v : World} → IsInTurn w → Step tid uses w v → IsInTurn v
  unfolding queue_in_loop take_functors finish_functors
  Step-IsInTurn (o, n) (Step.starts_loop w p) = (o, λ _. n (cc p))
  Step-IsInTurn (o, n) (Step.tests_quit w p) = elim (Bool-cases w.loop.quit) [
    | inl leaves ↦ rw leaves (o, λ _. n (cc p))
    | inr stays ↦ rw stays (o, λ _. n (cc p))
  ]
  Step-IsInTurn (o, n) (Step.poll_returns w p) = (o, λ _. n (cc p))
  Step-IsInTurn (o, n) (Step.handles_wakeup w p) = (o, n)
  Step-IsInTurn (o, n) (Step.handler_queues f w p) =
      announce-IsInTurn (tid 0) (record w { loop = emplace f w.loop; queued = w.queued ++ f ∷ [] })
        w.announcing (emplace-IsInTurn f w w.announcing (o, n))
  Step-IsInTurn (o, n) (Step.starts_functors w p) = (
    o
        ∙ ap (λ xs. w.loop.ran ++ (xs ++ w.loop.pending_functors)) (n (rw p refl))
        ∙ ap (λ xs. w.loop.ran ++ xs) (sym (append-nil w.loop.pending_functors)),
    λ q. absurd (ground (arith, q)),
  )
  Step-IsInTurn (o, n) (Step.calls f rest w p e) = (
    o
        ∙ ap (λ xs. w.loop.ran ++ (xs ++ w.loop.pending_functors)) e
        ∙ sym (append_assoc w.loop.ran (f ∷ []) (rest ++ w.loop.pending_functors)),
    λ q. absurd (ground (arith, p, q)),
  )
  Step-IsInTurn (o, n) (Step.functor_queues f w p) =
      announce-IsInTurn (tid 0) (record w { loop = emplace f w.loop; queued = w.queued ++ f ∷ [] })
        w.announcing (emplace-IsInTurn f w w.announcing (o, n))
  Step-IsInTurn (o, n) (Step.ends_functors w p e) = (o, λ _. e)
  Step-IsInTurn (o, n) (Step.other_emplaces t f w apart u) =
      emplace-IsInTurn f w (t ∷ w.announcing) (o, n)
  Step-IsInTurn (o, n) (Step.other_announces t before after w apart u e) =
      announce-IsInTurn (tid t) w (before ++ after) (o, n)
  Step-IsInTurn (o, n) (Step.own_quits w p) =
      let (same, left) = announce_quit-functors (tid 0) (request_quit w.loop) in
      (o ∙ sym same, λ q. left ∙ n q)
  Step-IsInTurn (o, n) (Step.other_quits t w apart u) = (o, n)
  Step-IsInTurn (o, n) (Step.other_ends_quit t before after w apart u e) =
      let (same, left) = announce_quit-functors (tid t) w.loop in (o ∙ sym same, λ p. left ∙ n p)

  Reach-IsInTurn : {w v : World} → IsInTurn w → Reach tid uses w v → IsInTurn v
  Reach-IsInTurn i Reach.here = i
  Reach-IsInTurn i (Reach.then r s) = Step-IsInTurn (Reach-IsInTurn i r) s

  -- At any point of any interleaving, the functors that were ever queued are those that ran, those that are being run
  -- and those that wait, in the order in which they were queued: none is lost, run twice or overtaken.
  pub Reach-in_turn : (w : World) → Reach tid uses (start tid) w → w.queued ≡ in_turn w.loop
  Reach-in_turn w r = (Reach-IsInTurn (refl, λ _. refl) r).0
