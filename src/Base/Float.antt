-- ===== src/Base/Float.antt =====
-- Go's float64 as far as the program computes with it: the type and its operations are given.
-- `ratio a b` is the float64 that a decimal literal a / b denotes.
use Prim.Native.Nat.{ℕ}
use mathlib.Core.Bool.{Bool}

pub record FloatOps : Type 1 where
  pub Float : Type 0
  pub of_ℕ : ℕ → Float
  pub ratio : ℕ → ℕ → Float
  pub add : Float → Float → Float
  pub sub : Float → Float → Float
  pub mul : Float → Float → Float
  pub div : Float → Float → Float
  pub lt : Float → Float → Bool
  pub eq : Float → Float → Bool
