-- ===== src/Prelude/Word.antt =====
-- `unsigned` and `uint32_t` counters: the wrap-around is written out.
use Prim.Native.Nat.{ℕ, suc, ◌+◌, ◌-◌, ◌%◌, ◌^◌, ◌<◌}
use mathlib.Core.Path.{◌≡◌}
use native.Mathlib.Omega.{arith}

abbrev pub u32_mod : ℕ
u32_mod = 2 ^ 32

-- `++x` and `--x`.
abbrev pub incr32 : ℕ → ℕ
incr32 x = (x + 1) % u32_mod

abbrev pub decr32 : ℕ → ℕ
decr32 x = (x + u32_mod - 1) % u32_mod

pub decr32_lem : (x : ℕ) → suc x < u32_mod → decr32 (suc x) ≡ x
decr32_lem x h = omega arith

pub incr32_lem : (x : ℕ) → suc x < u32_mod → incr32 x ≡ suc x
incr32_lem x h = omega arith
