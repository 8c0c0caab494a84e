-- ===== src/Memory/PageMap/Tests.antt =====
-- Ensure of a range across two leaves.
use network_library.Prelude.{ℕ, ◌≡◌, some, true, arith, if◌then◌else◌, ◌==◌}
use network_library.Memory.Heap.{returned}
use network_library.Memory.PageMap.{PageMap, new_map, ensure, set, get}
use network_library.Memory.PageMap.Range.{ensure-set-get}

ensure-set-get_example :
    (m1 : PageMap) × (m2 : PageMap) × (ensure 2000 128 new_map ≡ some (true, m1))
    × ((j : ℕ) → get j m1 ≡ get j new_map)
    × (set 2100 7 m1 ≡ returned m2)
    × ((j : ℕ) → get j m2 ≡ (if j == 2100 then 7 else get j new_map))
ensure-set-get_example =
    ensure-set-get 2000 128 2100 7 new_map (omega arith) (omega arith) (omega arith)
