-- ===== src/Prelude/Maps.antt =====
-- `std::unordered_map` with number keys, where the code only finds, assigns and erases: what each
-- key is mapped to.
use network_library.Prelude.Tests.{◌==◌, if◌then◌else◌}
use Prim.Native.Nat.{ℕ}
use mathlib.Core.Option.{Option, none, some}

module _ {ℓ} {V : Type ℓ} where
  abbrev pub no_entries : ℕ → Option V
  no_entries key = none

  abbrev pub assign : ℕ → V → (ℕ → Option V) → ℕ → Option V
  assign key value entries other = if other == key then some value else entries other

  abbrev pub erase : ℕ → (ℕ → Option V) → ℕ → Option V
  erase key entries other = if other == key then none else entries other
