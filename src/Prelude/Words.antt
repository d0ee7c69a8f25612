-- ===== src/Prelude/Words.antt =====
-- Machine words and `std::time::Duration` as native numbers, with the standard library's
-- checked, saturating and wrapping operations written out.
use Prim.Native.Nat.{ℕ, zero, suc, ◌+◌, ◌-◌, ◌*◌, ◌%◌, ◌^◌, ◌≤◌, min}
use mathlib.Core.Option.{Option, none, some}
use native.Mathlib.Omega.{arith}
use svc_resillience_rs.Prelude.Tests.{if◌then◌else◌, leb}

abbrev pub u32_max : ℕ
u32_max = 2 ^ 32 - 1

-- `usize` is `u64` on the targets that the model is about.
abbrev pub u64_max : ℕ
u64_max = 2 ^ 64 - 1

-- A duration is its number of nanoseconds; `Duration::MAX` is the largest.
abbrev pub Duration : Type 0
Duration = ℕ

abbrev pub duration_max : Duration
duration_max = (2 ^ 64 - 1) * 1_000_000_000 + 999_999_999

abbrev pub saturating_add_u32 : ℕ → ℕ → ℕ
saturating_add_u32 a b = min (a + b) u32_max

abbrev pub wrapping_add_u64 : ℕ → ℕ → ℕ
wrapping_add_u64 a b = (a + b) % 2 ^ 64

abbrev pub checked_add_u64 : ℕ → ℕ → Option ℕ
checked_add_u64 a b = if leb (a + b) u64_max then some (a + b) else none

abbrev pub saturating_add_duration : Duration → Duration → Duration
saturating_add_duration a b = min (a + b) duration_max

-- `Duration::saturating_mul` by a `u32`.
abbrev pub saturating_mul_duration : Duration → ℕ → Duration
saturating_mul_duration d m = min (d * m) duration_max

-- `u32::saturating_pow`, by repeated saturating multiplication.
unfoldable pub saturating_pow_u32 : ℕ → ℕ → ℕ
saturating_pow_u32 b zero = 1
saturating_pow_u32 b (suc e) = min (b * saturating_pow_u32 b e) u32_max

pub saturating_pow_u32-le : (b e : ℕ) → saturating_pow_u32 b e ≤ u32_max
unfolding saturating_pow_u32
saturating_pow_u32-le b zero = omega arith
saturating_pow_u32-le b (suc e) = omega arith
