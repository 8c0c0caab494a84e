-- ===== src/EventLoop/Steps.antt =====
-- src/net/EventLoop.cc: the loop's thread and the others, as steps that interleave.
use network_library.Prelude.{ℕ, ◌≡◌, ◌≢◌, ◌⊎◌, if◌then◌else◌, Bool, true, List, [], ◌∷◌, ◌++◌}
use network_library.EventLoop.{
  EventLoop, new_loop, read_wakeup, emplace, announce, queue_in_loop, take_functors, call_functor,
  finish_functors, begin_loop, end_loop, request_quit, announce_quit,
}

-- Where the thread of the loop is: before `loop`, at the test of its `while`, in `poll`, in the handlers, in
-- `doPendingFunctors`, or behind the loop.
pub data Phase : Type 0 where
  created testing polling handling calling stopped : Phase

-- `announcing` are the threads that have put a functor into the queue, and have not tested yet whether to wake the
-- loop. `quitting` are those that have set `quit_`, and have not come to the test of whether to wake the loop. `queued`
-- are the functors that were ever put into the queue.
pub record World : Type 0 where
  pub loop : EventLoop
  pub phase : Phase
  pub announcing : List ℕ
  pub quitting : List ℕ
  pub queued : List ℕ

-- The test of the `while`.
abbrev pub tested : World → World
tested w =
    if w.loop.quit
    then record w { loop = end_loop w.loop; phase = stopped }
    else record w { phase = polling }

-- Thread 0 is the loop's. `tid` is what `CurrentThread::tid` says in each thread.
module _ (tid : ℕ → ℕ) where
  abbrev pub start : World
  start = record {
    loop = new_loop (tid 0);
    phase = created;
    announcing = [];
    quitting = [];
    queued = [];
  }

  -- Another thread's `queueInLoop`.
  abbrev pub emplaces : ℕ → ℕ → World → World
  emplaces t f w = record w {
    loop = emplace f w.loop;
    announcing = t ∷ w.announcing;
    queued = w.queued ++ f ∷ [];
  }

  abbrev pub announces : ℕ → List ℕ → World → World
  announces t others w = record w { loop = announce (tid t) w.loop; announcing = others }

  -- The loop's own `queueInLoop`.
  abbrev pub queues : ℕ → World → World
  queues f w = record w { loop = queue_in_loop (tid 0) f w.loop; queued = w.queued ++ f ∷ [] }

  -- The end of `quit` of a thread.
  abbrev pub ends_quit : ℕ → List ℕ → World → World
  ends_quit t others w = record w { loop = announce_quit (tid t) w.loop; quitting = others }

-- `uses` says which of the other threads call `queueInLoop` and `quit` of the loop.
module _ (tid : ℕ → ℕ) (uses : ℕ → Bool) where
  pub data Step : World → World → Type 0 where
    starts_loop :
        (w : World)
        → w.phase ≡ created
        → Step w (record w { loop = begin_loop w.loop; phase = testing })
    tests_quit : (w : World) → w.phase ≡ testing → Step w (tested w)
    poll_returns : (w : World) → w.phase ≡ polling → Step w (record w { phase = handling })
    handles_wakeup :
        (w : World) → w.phase ≡ handling → Step w (record w { loop = read_wakeup w.loop })
    handler_queues : (f : ℕ) (w : World) → w.phase ≡ handling → Step w (queues tid f w)
    starts_functors :
        (w : World)
        → w.phase ≡ handling
        → Step w (record w { loop = take_functors w.loop; phase = calling })
    calls :
        (f : ℕ) (rest : List ℕ) (w : World)
        → w.phase ≡ calling
        → w.loop.functors ≡ f ∷ rest
        → Step w (record w { loop = call_functor f rest w.loop })
    functor_queues : (f : ℕ) (w : World) → w.phase ≡ calling → Step w (queues tid f w)
    ends_functors :
        (w : World)
        → w.phase ≡ calling
        → w.loop.functors ≡ []
        → Step w (record w { loop = finish_functors w.loop; phase = testing })
    other_emplaces : (t f : ℕ) (w : World) → t ≢ 0 → uses t ≡ true → Step w (emplaces tid t f w)
    other_announces :
        (t : ℕ) (before after : List ℕ) (w : World)
        → t ≢ 0
        → uses t ≡ true
        → w.announcing ≡ before ++ t ∷ after
        → Step w (announces tid t (before ++ after) w)
    own_quits :
        (w : World)
        → (w.phase ≡ handling) ⊎ (w.phase ≡ calling)
        → Step w (record w { loop = announce_quit (tid 0) (request_quit w.loop) })
    other_quits :
        (t : ℕ) (w : World)
        → t ≢ 0
        → uses t ≡ true
        → Step w (record w { loop = request_quit w.loop; quitting = t ∷ w.quitting })
    other_ends_quit :
        (t : ℕ) (before after : List ℕ) (w : World)
        → t ≢ 0
        → uses t ≡ true
        → w.quitting ≡ before ++ t ∷ after
        → Step w (ends_quit tid t (before ++ after) w)

  pub data Reach (w : World) : World → Type 0 where
    here : Reach w w
    then : {u v : World} → Reach w u → Step u v → Reach w v
