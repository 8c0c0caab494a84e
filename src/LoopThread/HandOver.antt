-- ===== src/LoopThread/HandOver.antt =====
-- src/net/EventLoopThread.cc: what startLoop waits for and what it returns.
use network_library.Prelude.{
  ℕ, arith, ◌≡◌, ◌≢◌, ◌∙◌, sym, refl, Bool, true, false, Option, none, some,
}
use network_library.Prelude.Options.{some_inj}
use network_library.LoopThread.{
  Caller, idle, testing, blocked, has_loop, joining, gone, destroyed, Worker, unborn, starting,
  terminated, calling_back, publishing, looping, clearing, unlocking, leaving, ended, World,
  new_world, begun, notified, tested, Step, starts, begins, tests, wakes, calls_back, publishes,
  leaves, clears, unlocks, destroys_loop, destroys_idle, destroys, joins, Reach, here, then,
}

-- The loop of the thread is made and `loop_` was set to it.
abbrev pub has_published : Worker → Bool
has_published unborn = false
has_published starting = false
has_published terminated = false
has_published calling_back = false
has_published publishing = false
has_published _ = true

-- `loop_` is set exactly from then on until it is cleared.
abbrev pub shows : ℕ → Worker → Option ℕ
shows own looping = some own
shows own clearing = some own
shows own _ = none

-- The thread was never started, or it has cleared `loop_`.
abbrev pub is_over : Worker → Bool
is_over unborn = true
is_over unlocking = true
is_over leaving = true
is_over ended = true
is_over _ = false

-- What may be said of `startLoop` beside a worker: it waits only while `loop_` is null, and what it returns is the loop
-- of the thread, which was made before; and behind its destructor the thread has cleared `loop_`, or was never started.
abbrev pub Agrees : ℕ → Caller → Option ℕ → Worker → Type 0
Agrees own idle l t = t ≡ unborn
Agrees own testing l t = Unit
Agrees own blocked l t = l ≡ none
Agrees own joining l t = has_published t ≡ true
Agrees own gone l t = is_over t ≡ true
Agrees own (has_loop loop) l t = (loop ≡ own) × (has_published t ≡ true)

abbrev pub IsHandOver : ℕ → World → Type 0
IsHandOver own w = (w.loop ≡ shows own w.worker) × Agrees own w.caller w.loop w.worker

module _ (keeps : Bool) (own : ℕ) where
  tested-Agrees : (l : Option ℕ) (t : Worker) → l ≡ shows own t → Agrees own (tested l) l t
  tested-Agrees none t e = refl
  tested-Agrees (some loop) looping e = (some_inj e, refl)
  tested-Agrees (some loop) clearing e = (some_inj e, refl)
  tested-Agrees (some loop) unborn e = cc
  tested-Agrees (some loop) starting e = cc
  tested-Agrees (some loop) terminated e = cc
  tested-Agrees (some loop) calling_back e = cc
  tested-Agrees (some loop) publishing e = cc
  tested-Agrees (some loop) unlocking e = cc
  tested-Agrees (some loop) leaving e = cc
  tested-Agrees (some loop) ended e = cc

  -- What is said beside a thread that has not made its loop holds until it has.
  unmade-Agrees :
      (c : Caller) (l : Option ℕ) (t u : Worker)
      → has_published t ≡ false
      → t ≢ unborn
      → Agrees own c l t
      → Agrees own c l u
  unmade-Agrees idle l t u h n a = absurd (n a)
  unmade-Agrees testing l t u h n a = a
  unmade-Agrees blocked l t u h n a = a
  unmade-Agrees joining l t u h n a = cc
  unmade-Agrees gone l unborn u h n a = absurd (n refl)
  unmade-Agrees gone l starting u h n a = cc
  unmade-Agrees gone l terminated u h n a = cc
  unmade-Agrees gone l calling_back u h n a = cc
  unmade-Agrees gone l publishing u h n a = cc
  unmade-Agrees gone l looping u h n a = cc
  unmade-Agrees gone l clearing u h n a = cc
  unmade-Agrees gone l unlocking u h n a = cc
  unmade-Agrees gone l leaving u h n a = cc
  unmade-Agrees gone l ended u h n a = cc
  unmade-Agrees (has_loop loop) l t u h n a = cc

  begins-Agrees :
      (c : Caller) (l : Option ℕ) → Agrees own c l starting → Agrees own c l (begun keeps)
  begins-Agrees c l a = unmade-Agrees c l starting (begun keeps) refl (λ e. cc) a

  begun-shows : shows own (begun keeps) ≡ none
  begun-shows = ground arith

  publishes-Agrees :
      (c : Caller) (l : Option ℕ)
      → Agrees own c l publishing
      → Agrees own (notified c) (some own) looping
  publishes-Agrees idle l a = cc
  publishes-Agrees testing l a = a
  publishes-Agrees blocked l a = record {}
  publishes-Agrees joining l a = cc
  publishes-Agrees gone l a = cc
  publishes-Agrees (has_loop loop) l a = cc

  -- What is said beside a thread that has made its loop stays when loop_ is cleared or the thread goes on.
  made-Agrees :
      (c : Caller) (l k : Option ℕ) (t u : Worker)
      → (l ≡ none → k ≡ none)
      → t ≢ unborn
      → has_published u ≡ true
      → (is_over t ≡ true → is_over u ≡ true)
      → Agrees own c l t
      → Agrees own c k u
  made-Agrees idle l k t u n h p o a = absurd (h a)
  made-Agrees testing l k t u n h p o a = a
  made-Agrees blocked l k t u n h p o a = n a
  made-Agrees joining l k t u n h p o a = p
  made-Agrees gone l k t u n h p o a = o a
  made-Agrees (has_loop loop) l k t u n h p o a = (a.0, p)

  destroyed-Agrees :
      (l : Option ℕ) (t : Worker)
      → l ≡ shows own t
      → has_published t ≡ true
      → Agrees own (destroyed l) l t
  destroyed-Agrees none unlocking e p = refl
  destroyed-Agrees none leaving e p = refl
  destroyed-Agrees none ended e p = refl
  destroyed-Agrees none looping e p = cc
  destroyed-Agrees none clearing e p = cc
  destroyed-Agrees none unborn e p = cc
  destroyed-Agrees none starting e p = cc
  destroyed-Agrees none terminated e p = cc
  destroyed-Agrees none calling_back e p = cc
  destroyed-Agrees none publishing e p = cc
  destroyed-Agrees (some loop) t e p = p

  Step-IsHandOver : {v w : World} → Step keeps own v w → IsHandOver own v → IsHandOver own w
  Step-IsHandOver (starts l) (e, a) = (e, record {})
  Step-IsHandOver (begins l c) (e, a) = (e ∙ sym begun-shows, begins-Agrees c l a)
  Step-IsHandOver (tests l t h) (e, a) = (e, tested-Agrees l t e)
  Step-IsHandOver (wakes l t h) (e, a) = (e, record {})
  Step-IsHandOver (calls_back l c) (e, a) =
      (e, unmade-Agrees c l calling_back publishing refl (λ e. cc) a)
  Step-IsHandOver (publishes l c) (e, a) = (refl, publishes-Agrees c l a)
  Step-IsHandOver (leaves l c) (e, a) =
      (e, made-Agrees c l l looping clearing (λ n. n) (λ e. cc) refl (λ o. cc) a)
  Step-IsHandOver (clears l c) (e, a) =
      (refl, made-Agrees c l none clearing unlocking (λ n. refl) (λ e. cc) refl (λ o. refl) a)
  Step-IsHandOver (unlocks l c) (e, a) =
      (e, made-Agrees c l l unlocking leaving (λ n. n) (λ e. cc) refl (λ o. refl) a)
  Step-IsHandOver (destroys_loop l c) (e, a) =
      (e, made-Agrees c l l leaving ended (λ n. n) (λ e. cc) refl (λ o. refl) a)
  Step-IsHandOver (destroys_idle none) (e, a) = (e, refl)
  Step-IsHandOver (destroys_idle (some loop)) (e, a) = cc
  Step-IsHandOver (destroys l loop t) (e, a) = (e, destroyed-Agrees l t e a.1)
  Step-IsHandOver (joins l) (e, a) = (e, refl)

  -- In every interleaving of startLoop and the destructor with the new thread, whether or not the Thread object holds
  -- the function: loop_ is the loop of the thread from the moment at which it is set until it is cleared and null
  -- otherwise; startLoop waits only while it is null; what startLoop returns is the loop of the thread, which the thread
  -- has made by then; and when the destructor returns, the thread was never started or has set loop_ to null again.
  pub Reach-IsHandOver : {w : World} → Reach keeps own new_world w → IsHandOver own w
  Reach-IsHandOver here = (refl, refl)
  Reach-IsHandOver (then r s) = Step-IsHandOver s (Reach-IsHandOver r)
