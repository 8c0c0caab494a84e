-- ===== src/Logger/Tests.antt =====
-- A logger at the end of a day.
use network_library.Prelude.{ℕ, ◌+◌, ◌/◌, ◌≤◌, ◌≡◌, refl, List, [], ◌∷◌, ◌++◌, arith, length}
use network_library.Http.Text.{bytes_of}
use network_library.Logger.{
  World, debug, taking, new_logger, Step, Reach, printed, line, pop, log, push,
}
use network_library.Logger.Stamp.{Tm, to_string, file_name, IsDated, file_name_inj}
use network_library.Logger.Order.{IsInOrder, Reach-IsInOrder}
use network_library.Logger.Files.{GoesNext, Reach-GoesNext, then_reach}
use network_library.Logger.Drains.{Written, writer_drains}
use network_library.Logger.Lines.{line-printed}

abbrev localtime : ℕ → Tm
localtime t = record {
  tm_year = 123;
  tm_mon = 4;
  tm_mday = t / 86400 + 1;
  tm_hour = t / 3600;
  tm_min = 0;
  tm_sec = 7;
}

abbrev no_files : List ℕ → List ℕ
no_files name = []

abbrev start : World
start = new_logger debug 86000 no_files

abbrev has_open : World
has_open = record start { writer = taking (file_name (localtime 86000)) }

-- The writer waits over midnight, and then a message is logged.
abbrev after_midnight : World
after_midnight = record (pop (file_name (localtime 86000)) has_open) { now = 86500 }

abbrev last_world : World
last_world = log (printed (bytes_of "late")) after_midnight

abbrev opened : Reach localtime start has_open
opened = Reach.then Reach.here (Step.opens start refl)

over_midnight : Reach localtime has_open last_world
unfolding pop
over_midnight =
    Reach.then
      (Reach.then (Reach.then Reach.here (Step.pops (file_name (localtime 86000)) has_open refl))
        (Step.passes 86500 (pop (file_name (localtime 86000)) has_open)))
      (Step.logs (bytes_of "late") after_midnight refl)

whole_day : Reach localtime start last_world
whole_day = then_reach localtime opened over_midnight

Reach-IsInOrder_example : IsInOrder no_files last_world
Reach-IsInOrder_example = Reach-IsInOrder localtime no_files debug 86000 last_world whole_day

Reach-GoesNext_example : GoesNext (file_name (localtime 86000)) [] last_world
Reach-GoesNext_example = Reach-GoesNext localtime refl over_midnight

writer_drains_example : Written localtime last_world
unfolding pop log push
writer_drains_example = writer_drains localtime debug 86000 no_files last_world whole_day refl

noon-IsDated : IsDated (localtime 43200)
noon-IsDated = record {
  year = omega arith;
  mon = omega arith;
  mday = omega arith;
  hour = omega arith;
  min = omega arith;
  sec = omega arith;
}

line-printed_example :
    (line (to_string localtime 43200) (printed (bytes_of "hello"))
      ≡ to_string localtime 43200 ++ printed (bytes_of "hello") ++ 10 ∷ [])
    × (length (line (to_string localtime 43200) (printed (bytes_of "hello"))) ≤ 1043)
line-printed_example = line-printed localtime 43200 (bytes_of "hello") noon-IsDated

file_name_inj_example :
    ((localtime 10).tm_year ≡ (localtime 20).tm_year)
    × ((localtime 10).tm_mon ≡ (localtime 20).tm_mon)
    × ((localtime 10).tm_mday ≡ (localtime 20).tm_mday)
file_name_inj_example = file_name_inj (localtime 10) (localtime 20) refl
