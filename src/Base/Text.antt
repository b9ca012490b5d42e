-- ===== src/Base/Text.antt =====
-- What the program asks of Go's text formatting: given. `sprintf` is `fmt.Sprintf` on a format and
-- its arguments, `prefix` the slice expression `s[:n]`, `format_duration` the method
-- `time.Duration.String`. The argument `quotient n d` is the float64 quotient of two integers.
use Prim.Native.Nat.{ℕ}
use Prim.Native.String.{String}
use mathlib.Core.List.{List}
use mathlib.Core.Bool.{Bool}
use nexus_bench.Base.Int.{ℤ}

pub data Arg : Type 0 where
  text : String → Arg
  number : ℤ → Arg
  texts : List String → Arg
  truth : Bool → Arg
  quotient : ℤ → ℕ → Arg

pub record TextOps : Type 0 where
  pub sprintf : String → List Arg → String
  pub prefix : ℕ → String → String
  pub format_duration : ℕ → String
