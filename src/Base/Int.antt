-- ===== src/Base/Int.antt =====
-- Go's signed integers as far as the program compares them: `negsuc n` is -(n + 1).
use Prim.Native.Nat.{ℕ, ◌<◌}
use mathlib.Core.Path.{◌≡◌}
use mathlib.Core.Logic.{◌↔◌}
use mathlib.Core.Bool.{Bool, true, false}
use native.Mathlib.Omega.{arith}
use nexus_bench.Base.Tests.{ltb, ◌==◌}

pub data ℤ : Type 0 where
  pos : ℕ → ℤ
  negsuc : ℕ → ℤ

abbrev pub pos_part : ℤ → ℕ
pos_part (pos n) = n
pos_part (negsuc n) = 0

-- `z > 0`
abbrev pub is_positive : ℤ → Bool
is_positive (pos n) = ltb 0 n
is_positive (negsuc n) = false

-- `a == b`
abbrev pub eq_ℤ : ℤ → ℤ → Bool
eq_ℤ (pos a) (pos b) = a == b
eq_ℤ (negsuc a) (negsuc b) = a == b
eq_ℤ _ _ = false

pub eq_ℤ_iff : (a b : ℤ) → (eq_ℤ a b ≡ true) ↔ (a ≡ b)
eq_ℤ_iff (pos a) (pos b) = ground arith
eq_ℤ_iff (negsuc a) (negsuc b) = ground arith
eq_ℤ_iff (pos a) (negsuc b) = ground arith
eq_ℤ_iff (negsuc a) (pos b) = ground arith

pub pos_part_pos : (z : ℤ) → is_positive z ≡ true → 0 < pos_part z
pos_part_pos (pos n) h = ground arith
pos_part_pos (negsuc n) h = ground arith

-- `a < b`
abbrev pub less_ℤ : ℤ → ℤ → Bool
less_ℤ (pos a) (pos b) = ltb a b
less_ℤ (negsuc a) (negsuc b) = ltb b a
less_ℤ (negsuc a) (pos b) = true
less_ℤ (pos a) (negsuc b) = false
