-- ===== src/Validator/Compare/Matching.antt =====
-- The reason is empty exactly on a match.
use nexus_bench.Base.{
  String, Bool, true, false, List, [], ◌∷◌, ◌≡◌, ◌≢◌, ◌↔◌, arith, inl, inr, All, Bool-cases,
  eq_ℤ_iff, str_eq,
}
use nexus_bench.Base.Strings.{str_append-nonempty}
use nexus_bench.Base.Text.{TextOps, Arg}
use nexus_bench.Orderbook.{GoldenFill}
use nexus_bench.Checker.{eq_Bool}
use nexus_bench.Fleet.{Order, Fill}
use nexus_bench.Validator.Compare.{
  accepted_format, price_format, qty_format, in_context, accepted_reason, price_reason, qty_reason,
  compare_fills,
}

-- The three values of the contestant's fill that are compared are those of the golden fill.
unfoldable pub Answers : Fill → GoldenFill → Type 0
Answers actual expected =
    (actual.accepted ≡ expected.accepted)
    × ((actual.executed_price ≡ expected.executed_price)
        × (actual.executed_qty ≡ expected.executed_qty))

pub eq_Bool_iff : (a b : Bool) → (eq_Bool a b ≡ true) ↔ (a ≡ b)
eq_Bool_iff true true = ground arith
eq_Bool_iff true false = ground arith
eq_Bool_iff false true = ground arith
eq_Bool_iff false false = ground arith

module _ (T : TextOps) where
  -- `fmt.Sprintf` copies the text of a format that stands outside its verbs, so it answers no empty
  -- text on a format with such text.
  unfoldable pub KeepsText : Type 0
  KeepsText =
      All (λ format. (args : List Arg) → T.sprintf format args ≢ "")
        (accepted_format ∷ price_format ∷ qty_format ∷ [])

  in_context-nonempty : (context reason : String) → reason ≢ "" → in_context T context reason ≢ ""
  in_context-nonempty context reason h = elim (Bool-cases (str_eq context "")) [
    | inl e ↦ rw e h
    | inr e ↦ rw e (str_append-nonempty reason _ h)
  ]

  pub compare_fills_match :
      (o : Order) (actual : Fill) (expected : GoldenFill) (context : String)
      → Answers actual expected
      → compare_fills T o actual expected context ≡ ""
  unfolding compare_fills Answers
  compare_fills_match o actual expected context h = ground (
    arith,
    eq_Bool_iff actual.accepted expected.accepted,
    eq_ℤ_iff actual.executed_price expected.executed_price,
    eq_ℤ_iff actual.executed_qty expected.executed_qty,
  )

  pub compare_fills_mismatch :
      (o : Order) (actual : Fill) (expected : GoldenFill) (context : String)
      → KeepsText
      → compare_fills T o actual expected context ≡ ""
      → Answers actual expected
  unfolding compare_fills Answers KeepsText
  compare_fills_mismatch o actual expected context texts h = ground (
    arith,
    eq_Bool_iff actual.accepted expected.accepted,
    eq_ℤ_iff actual.executed_price expected.executed_price,
    eq_ℤ_iff actual.executed_qty expected.executed_qty,
    in_context-nonempty context (accepted_reason T o actual expected) (texts.0 _),
    in_context-nonempty context (price_reason T o actual expected) (texts.1.0 _),
    in_context-nonempty context (qty_reason T o actual expected) (texts.1.1.0 _),
  )
