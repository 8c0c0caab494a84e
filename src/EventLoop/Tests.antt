-- ===== src/EventLoop/Tests.antt =====
-- A loop with its own callbacks, as the program runs it, and one beside another thread.
use network_library.Prelude.{ℕ, ◌+◌, ◌<◌, ◌≡◌, ◌≢◌, refl, Bool, true, false, [], arith, length}
use network_library.Thread.{cached_tid}
use network_library.Thread
use network_library.EventLoop.{
  begin_loop, request_quit, announce, queue_in_loop, take_functors, finish_functors, call_functor,
  announce_quit,
}
use network_library.EventLoop.Steps.{
  testing, polling, handling, calling, World, Step, Reach, start, emplaces, queues, tested,
}
use network_library.EventLoop.Quit.{quit-never_polls}
use network_library.EventLoop.Wakeup.{in_turn, no_lost_wakeup, Reach-in_turn}

-- The ids of the threads: that of the process in all of them.
abbrev process_id : ℕ → ℕ
process_id t = Thread.tid 0 100

-- No other thread uses the loop: the pool starts none.
abbrev alone : ℕ → Bool
alone t = false

alone_apart : (t : ℕ) → t ≢ 0 → alone t ≡ true → process_id t ≢ process_id 0
alone_apart t o u = absurd (ground (arith, u))

-- The loop has begun.
abbrev polling_world : World
polling_world = record (start process_id) {
  loop = begin_loop (start process_id).loop;
  phase = polling;
}

Reach-polling_world : (uses : ℕ → Bool) → Reach process_id uses (start process_id) polling_world
Reach-polling_world uses =
    Reach.then (Reach.then Reach.here (Step.starts_loop (start process_id) refl))
      (Step.tests_quit (record polling_world { phase = testing }) refl)

-- A handler queues the functor 5, which queues the functor 6.
abbrev handled : World
handled = queues process_id 5 (record polling_world { phase = handling })

abbrev calls_5 : World
calls_5 = record handled { loop = take_functors handled.loop; phase = calling }

abbrev queued_6 : World
queued_6 = queues process_id 6 calls_5

abbrev called_5 : World
called_5 = record queued_6 { loop = call_functor 5 [] queued_6.loop }

abbrev finished : World
finished = record called_5 { loop = finish_functors called_5.loop; phase = testing }

Reach-handled : Reach process_id alone (start process_id) handled
Reach-handled =
    Reach.then (Reach.then (Reach-polling_world alone) (Step.poll_returns polling_world refl))
      (Step.handler_queues 5 (record polling_world { phase = handling }) refl)

Reach-finished : Reach process_id alone (start process_id) (tested finished)
unfolding announce queue_in_loop take_functors finish_functors Thread.tid cached_tid
Reach-finished =
    Reach.then
      (Reach.then
        (Reach.then
          (Reach.then (Reach.then Reach-handled (Step.starts_functors handled refl))
            (Step.functor_queues 6 calls_5 refl))
          (Step.calls 5 [] queued_6 refl refl))
        (Step.ends_functors called_5 refl refl))
      (Step.tests_quit finished refl)

no_lost_wakeup_example : 0 < (tested finished).loop.wakeup_fd + length (tested finished).announcing
unfolding announce queue_in_loop take_functors finish_functors Thread.tid cached_tid
no_lost_wakeup_example =
    no_lost_wakeup process_id alone alone_apart (tested finished) Reach-finished refl (omega arith)

other_apart : ◌≢◌ {A = ℕ} 1 0
other_apart e = omega (arith, e)

abbrev queued_once : World
queued_once = emplaces process_id 1 5 polling_world

Reach-in_turn_example : queued_once.queued ≡ in_turn queued_once.loop
Reach-in_turn_example =
    Reach-in_turn process_id (λ _. true) queued_once
      (Reach.then (Reach-polling_world (λ _. true))
        (Step.other_emplaces 1 5 polling_world other_apart refl))

-- The functor 5 has called `quit`.
abbrev quit_world : World
quit_world = record calls_5 { loop = announce_quit (process_id 0) (request_quit calls_5.loop) }

-- Its call ends, and the loop comes to its test.
abbrev quit_test : World
quit_test = record quit_world {
  loop = finish_functors (call_functor 5 [] quit_world.loop);
  phase = testing;
}

quit-never_polls_example : (tested quit_test).phase ≢ polling
unfolding announce queue_in_loop take_functors finish_functors announce_quit Thread.tid cached_tid
quit-never_polls_example =
    quit-never_polls process_id alone quit_world (tested quit_test) refl refl (
      Reach.then
        (Reach.then (Reach.then Reach.here (Step.calls 5 [] quit_world refl refl)) (
          Step.ends_functors (record quit_world { loop = call_functor 5 [] quit_world.loop }) refl
            refl))
        (Step.tests_quit quit_test refl))
