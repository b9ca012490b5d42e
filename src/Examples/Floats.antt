-- ===== src/Examples/Floats.antt =====
-- A number system to run the models with: thousandths, as natural numbers.
use nexus_bench.Base.{ℕ, ◌+◌, ◌-◌, ◌*◌, ◌/◌, ltb, ◌==◌}
use nexus_bench.Base.Float.{FloatOps}

abbrev pub thousandths : FloatOps
thousandths = record {
  Float = ℕ;
  of_ℕ = λ n. n * 1000;
  ratio = λ a b. a * 1000 / b;
  add = λ a b. a + b;
  sub = λ a b. a - b;
  mul = λ a b. a * b / 1000;
  div = λ a b. a * 1000 / b;
  lt = ltb;
  eq = λ a b. a == b;
}
