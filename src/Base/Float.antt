-- ===== src/Base/Float.antt =====
-- The `f64` operations that the code calls. A float is its 64-bit pattern, and the operations are
-- those of the target's floating-point unit, so they are a parameter of the model.
use Prim.Native.Nat.{ℕ}
use mathlib.Core.Bool.{Bool}
use wayland_macos.Base.Int.{ℤ}

pub record F64 : Type 0 where
  -- `as f64` on an integer.
  pub of_int : ℤ → ℕ
  pub mul : ℕ → ℕ → ℕ
  pub lt : ℕ → ℕ → Bool
