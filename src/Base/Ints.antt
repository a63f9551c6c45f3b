-- ===== src/Base/Ints.antt =====
-- The integers as the C library's `atoi` and `atol` give them, on native numbers.
use Prim.Native.Nat.{ℕ}
use mathlib.Core.Option.{Option, none, some}
use mathlib.Core.Bool.{Bool}
use memory_trace_tool.Base.Tests.{if◌then◌else◌}

-- `negsuc n` is -(n + 1)
pub data ℤ : Type 0 where
  pos : ℕ → ℤ
  negsuc : ℕ → ℤ

-- `v >= 0 && test(v) ? v : default`, for a value that may be absent
unfoldable pub nonneg_or : (ℕ → Bool) → ℕ → Option ℤ → ℕ
nonneg_or test default none = default
nonneg_or test default (some (ℤ.pos n)) = if test n then n else default
nonneg_or test default (some (ℤ.negsuc n)) = default
