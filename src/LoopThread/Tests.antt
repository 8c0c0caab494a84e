-- ===== src/LoopThread/Tests.antt =====
-- A thread whose loop is returned, one whose destructor does not wait for it, and one whose function was lost.
use network_library.Prelude.{true, false, refl, none, some}
use network_library.LoopThread.{
  new_world, testing, looping, blocked, has_loop, gone, terminated, calling_back, unlocking, Reach,
  here, then, starts, begins, tests, calls_back, publishes, leaves, clears, destroys,
}
use network_library.LoopThread.HandOver.{IsHandOver, Reach-IsHandOver}

abbrev returns_loop :
    Reach true 9 new_world (record { loop = some 9; caller = has_loop 9; worker = looping })
returns_loop =
    then
      (then
        (then
          (then (then (then here (starts none)) (begins none testing))
            (tests none calling_back refl))
          (calls_back none blocked))
        (publishes none blocked))
      (tests (some 9) looping refl)

Reach-IsHandOver_example :
    IsHandOver 9 (record { loop = some 9; caller = has_loop 9; worker = looping })
Reach-IsHandOver_example = Reach-IsHandOver true 9 returns_loop

-- The destructor finds loop_ null while the thread still holds the mutex: it returns without a join.
leaves_thread_behind :
    Reach true 9 new_world (record { loop = none; caller = gone; worker = unlocking })
leaves_thread_behind =
    then (then (then returns_loop (leaves (some 9) (has_loop 9))) (clears (some 9) (has_loop 9)))
      (destroys none 9 unlocking)

-- The constructor of Thread has lost the function.
ends_process :
    Reach false 9 new_world (record { loop = none; caller = testing; worker = terminated })
ends_process = then (then here (starts none)) (begins none testing)
