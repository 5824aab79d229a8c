-- ===== src/Common/Words.antt =====
-- Rust's unsigned integers as native numbers. A release build wraps `+`, `-` and `*`; `saturating_`
-- and `checked_` are the methods of those names on `u64`.
use Prim.Native.Nat.{ℕ, ◌+◌, ◌-◌, ◌*◌, ◌%◌, ◌^◌, min}
use mathlib.Core.Option.{Option, none, some}
use validating_lightning_sig.Common.Tests.{ltb, if◌then◌else◌}

abbrev pub u64_mod : ℕ
u64_mod = 2 ^ 64

abbrev pub u32_mod : ℕ
u32_mod = 2 ^ 32

-- `u64::MAX`
abbrev pub u64_max : ℕ
u64_max = 2 ^ 64 - 1

abbrev pub u64_add : ℕ → ℕ → ℕ
u64_add a b = (a + b) % u64_mod

abbrev pub u64_sub : ℕ → ℕ → ℕ
u64_sub a b = (a + u64_mod - b) % u64_mod

abbrev pub u64_mul : ℕ → ℕ → ℕ
u64_mul a b = a * b % u64_mod

abbrev pub u32_add : ℕ → ℕ → ℕ
u32_add a b = (a + b) % u32_mod

abbrev pub u32_sub : ℕ → ℕ → ℕ
u32_sub a b = (a + u32_mod - b) % u32_mod

-- `e as u32`
abbrev pub to_u32 : ℕ → ℕ
to_u32 a = a % u32_mod

abbrev pub saturating_add : ℕ → ℕ → ℕ
saturating_add a b = min (a + b) u64_max

abbrev pub checked_add : ℕ → ℕ → Option ℕ
checked_add a b = if ltb (a + b) u64_mod then some (a + b) else none

abbrev pub checked_sub : ℕ → ℕ → Option ℕ
checked_sub a b = if ltb a b then none else some (a - b)

abbrev pub checked_mul : ℕ → ℕ → Option ℕ
checked_mul a b = if ltb (a * b) u64_mod then some (a * b) else none
