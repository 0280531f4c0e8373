-- ===== src/Prelude/Words.antt =====
-- Unsigned machine words, `std::clamp`, and division with remainder.
use Prim.Native.Nat.{ℕ, ◌^◌, ◌≤◌}
use native.Mathlib.Omega.{arith}
use log_generator.Prelude.Tests.{ltb, if◌then◌else◌}

-- The modulus of `std::uint64_t` and `std::size_t`.
abbrev pub u64_mod : ℕ
u64_mod = 2 ^ 64

abbrev pub clamp : ℕ → ℕ → ℕ → ℕ
clamp x lo hi = if ltb x lo then lo else if ltb hi x then hi else x

pub clamp_bounds : (x lo hi : ℕ) → lo ≤ hi → (lo ≤ clamp x lo hi) × (clamp x lo hi ≤ hi)
clamp_bounds x lo hi h = ground arith
