-- ===== src/InetAddress/Reader.antt =====
-- A reader of dotted numbers, which stands for `inet_addr` in examples.
use network_library.Prelude.{ℕ, ◌+◌, ◌-◌, ◌*◌, List, [], ◌∷◌, ◌==◌, if◌then◌else◌}

-- The numbers between the dots, as the digits of a number to the base 256, the last one first.
abbrev pub read_quad : ℕ → ℕ → List ℕ → ℕ
read_quad weight n [] = weight * n
read_quad weight n (x ∷ xs) =
    if x == 46
    then weight * n + read_quad (weight * 256) 0 xs
    else read_quad weight (n * 10 + (x - 48)) xs

abbrev pub inet_addr : List ℕ → ℕ
inet_addr text = read_quad 1 0 text
