-- ===== src/Prelude/Int.antt =====
-- Python's `int` where a negative value is possible. `negsuc n` is -(n + 1).
use Prim.Native.Nat.{ℕ}
use mathlib.Core.Bool.{Bool, true, false}
use agent_runtime_ops.Prelude.Tests.{leb, ◌==ℕ◌}

pub data ℤ : Type 0 where
  pos : ℕ → ℤ
  negsuc : ℕ → ℤ

unfoldable pub int_eq : ℤ → ℤ → Bool
int_eq (pos a) (pos b) = a ==ℕ b
int_eq (negsuc a) (negsuc b) = a ==ℕ b
int_eq _ _ = false

-- `a <= b`
unfoldable pub int_le : ℤ → ℤ → Bool
int_le (pos a) (pos b) = leb a b
int_le (pos a) (negsuc b) = false
int_le (negsuc a) (pos b) = true
int_le (negsuc a) (negsuc b) = leb b a
