-- ===== src/EventLoop/Quit.antt =====
-- src/net/EventLoop.cc: a quit in the loop's own thread ends the loop, and one before the loop begins is lost.
use network_library.Prelude.{ℕ, ◌≡◌, ◌≢◌, ◌∙◌, refl, Bool, true, false, arith}
use network_library.EventLoop.{
  EventLoop, announce, queue_in_loop, take_functors, finish_functors, announce_quit,
}
use network_library.EventLoop.Steps.{Phase, created, polling, World, Step, Reach, tested}

-- The loop has `quit_` set, and is neither before its first test of it nor in its poll.
abbrev pub is_ending : Phase → Bool
is_ending created = false
is_ending polling = false
is_ending _ = true

abbrev IsEnding : World → Type 0
IsEnding w = (w.loop.quit ≡ true) × (is_ending w.phase ≡ true)

announce-quit : (t : ℕ) (l : EventLoop) → (announce t l).quit ≡ l.quit
unfolding announce
announce-quit t l = ground arith

announce_quit-quit : (t : ℕ) (l : EventLoop) → (announce_quit t l).quit ≡ l.quit
unfolding announce_quit
announce_quit-quit t l = ground arith

module _ (tid : ℕ → ℕ) (uses : ℕ → Bool) where
  Step-IsEnding : {w v : World} → IsEnding w → Step tid uses w v → IsEnding v
  unfolding queue_in_loop take_functors finish_functors
  Step-IsEnding (q, e) (Step.starts_loop w p) = absurd (ground (arith, e, p))
  Step-IsEnding (q, e) (Step.tests_quit w p) = rw q (refl, refl)
  Step-IsEnding (q, e) (Step.poll_returns w p) = absurd (ground (arith, e, p))
  Step-IsEnding (q, e) (Step.handles_wakeup w p) = (q, e)
  Step-IsEnding (q, e) (Step.handler_queues f w p) = (announce-quit (tid 0) _ ∙ q, e)
  Step-IsEnding (q, e) (Step.starts_functors w p) = (q, refl)
  Step-IsEnding (q, e) (Step.calls f rest w p n) = (q, e)
  Step-IsEnding (q, e) (Step.functor_queues f w p) = (announce-quit (tid 0) _ ∙ q, e)
  Step-IsEnding (q, e) (Step.ends_functors w p n) = (q, refl)
  Step-IsEnding (q, e) (Step.other_emplaces t f w o u) = (q, e)
  Step-IsEnding (q, e) (Step.other_announces t before after w o u n) =
      (announce-quit (tid t) w.loop ∙ q, e)
  Step-IsEnding (q, e) (Step.own_quits w p) = (announce_quit-quit (tid 0) _, e)
  Step-IsEnding (q, e) (Step.other_quits t w o u) = (refl, e)
  Step-IsEnding (q, e) (Step.other_ends_quit t before after w o u n) =
      (announce_quit-quit (tid t) w.loop ∙ q, e)

  Reach-IsEnding : {w v : World} → IsEnding w → Reach tid uses w v → IsEnding v
  Reach-IsEnding e Reach.here = e
  Reach-IsEnding e (Reach.then r s) = Step-IsEnding (Reach-IsEnding e r) s

  -- Whatever ids the threads have: from a world in which quit_ is set while the loop is in its handlers, in its functors
  -- or at its test, as it is when a handler or a functor has called quit, no interleaving of the loop with other threads
  -- brings the loop to its poll again, so that the loop cannot sleep before it has ended.
  pub quit-never_polls :
      (w v : World)
      → w.loop.quit ≡ true
      → is_ending w.phase ≡ true
      → Reach tid uses w v
      → v.phase ≢ polling
  quit-never_polls w v q e r polls =
      let (_, ending) = Reach-IsEnding (q, e) r in absurd (ground (arith, ending, polls))

  -- A quit of a loop that has not begun is lost: from any world before loop, the loop can come to its poll without
  -- quit_.
  pub early_quit_lost :
      (w : World)
      → w.phase ≡ created
      → (v : World) × Reach tid uses w v × (v.phase ≡ polling) × (v.loop.quit ≡ false)
  early_quit_lost w p =
      let v : World = record w {
        loop = record w.loop { looping = true; quit = false };
        phase = Phase.testing;
      } in
      (
        tested v,
        Reach.then (Reach.then Reach.here (Step.starts_loop w p)) (Step.tests_quit v refl),
        refl,
        refl,
      )
