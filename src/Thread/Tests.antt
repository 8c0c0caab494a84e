-- ===== src/Thread/Tests.antt =====
-- A thread that is started and joined, of an object whose function stays or is lost.
use network_library.Prelude.{ℕ, ◌≡◌, refl, [], Option, none, some}
use network_library.Http.Text.{bytes_of}
use network_library.Thread.{
  World, has_started, has_joined, made, new_thread, set_default_name, start, set_tid, post,
  call_func, join, released, Step, Reach,
}
use network_library.Thread.Fits.{IsSound}
use network_library.Thread.Start.{Reach-IsSound, Reach-runs_nothing}

abbrev first : Option ℕ → World
first moved = made (new_thread moved (some 5) [] 0).0

first_name : (first none).object.name ≡ bytes_of "Thread1"
unfolding new_thread set_default_name
first_name = refl

-- Up to the call.
abbrev ready : Option ℕ → World
ready moved = record (post (set_tid 77 (start (first moved)))) { sem = 0; owner = has_started }

gets_ready : (moved : Option ℕ) → Reach 77 (first moved) (ready moved)
unfolding new_thread
gets_ready moved =
    Reach.then
      (Reach.then
        (Reach.then (Reach.then Reach.here (Step.starts (first moved) refl))
          (Step.sets_tid (start (first moved)) refl))
        (Step.posts (set_tid 77 (start (first moved))) refl))
      (Step.wait_returns 0 (post (set_tid 77 (start (first moved)))) refl refl)

abbrev over : World
over = record (join (call_func (some 5) (ready (some 5)))) {
  object = record (join (call_func (some 5) (ready (some 5)))).object { thread = released };
  owner = has_joined;
}

gets_over : Reach 77 (first (some 5)) over
unfolding new_thread
gets_over =
    Reach.then
      (Reach.then (Reach.then (gets_ready (some 5)) (Step.calls (ready (some 5)) refl refl))
        (Step.joins (call_func (some 5) (ready (some 5))) refl))
      (Step.join_returns (join (call_func (some 5) (ready (some 5)))) refl refl)

Reach-IsSound_example : IsSound (some 5) 77 over
Reach-IsSound_example = Reach-IsSound (some 5) (some 5) [] 0 77 over gets_over

lost : Reach 77 (first none) (call_func none (ready none))
unfolding new_thread
lost = Reach.then (gets_ready none) (Step.calls (ready none) refl refl)

Reach-runs_nothing_example : (call_func none (ready none)).ran ≡ []
Reach-runs_nothing_example = Reach-runs_nothing (some 5) [] 0 77 (call_func none (ready none)) lost
