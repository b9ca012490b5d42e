-- ===== src/Validator/Compare.antt =====
-- `compareFills` of internal/validator/validator.go, with the texts of its reasons.
pub mod Matching
use nexus_bench.Base.{
  ℕ, String, Bool, true, false, not, List, [], ◌∷◌, ℤ, is_positive, eq_ℤ, str_eq, if◌then◌else◌,
}
use nexus_bench.Base.Strings.{str_append}
use nexus_bench.Base.Text.{TextOps, text, number, truth, quotient}
use nexus_bench.Orderbook.{
  GoldenFill, OrderKind, Side, buy, sell, other_side, limit, market, cancel, other_kind,
}
use nexus_bench.Checker.{eq_Bool}
use nexus_bench.Fleet.{Order, Fill}

abbrev side_text : Side → String
side_text buy = "buy"
side_text sell = "sell"
side_text (other_side s) = s

abbrev accepted_label : Bool → String
accepted_label ok = if ok then "accepted" else "rejected"

abbrev pub accepted_format : String
accepted_format = "order %q %s: accepted mismatch: got %v (%s), want %v (%s)"

abbrev pub price_format : String
price_format = "order %q %s: executed_price mismatch: got %d %s, want %d %s"

abbrev pub qty_format : String
qty_format = "order %q %s: executed_qty mismatch: got %d %s, want %d %s"

module _ (T : TextOps) where
  open T use {sprintf}

  abbrev format_price : ℤ → String
  format_price cents = sprintf "$%.2f" (quotient cents 100 ∷ [])

  abbrev describe_kind : OrderKind → Order → String
  describe_kind cancel o = "[cancel]"
  describe_kind market o =
      sprintf "[market %s qty=%d]" (text (side_text o.side) ∷ number o.quantity ∷ [])
  describe_kind _ o =
      sprintf "[limit %s qty=%d price=%s]"
        (text (side_text o.side) ∷ number o.quantity ∷ text (format_price o.price) ∷ [])

  abbrev pub describe_order : Order → String
  describe_order o = describe_kind o.kind o

  abbrev price_label : ℤ → String
  price_label p = if is_positive p then sprintf "(%s)" (text (format_price p) ∷ []) else "(no fill)"

  abbrev qty_label : ℤ → String
  qty_label q = if is_positive q then sprintf "(qty %d)" (number q ∷ []) else "(no fill)"

  -- the `bookContext` line that each reason ends with
  abbrev pub in_context : String → String → String
  in_context book_context reason =
      if str_eq book_context ""
      then reason
      else str_append reason (sprintf "\n  book state: %s" (text book_context ∷ []))

  abbrev pub accepted_reason : Order → Fill → GoldenFill → String
  accepted_reason o actual expected = sprintf accepted_format (
      text o.id
      ∷ text (describe_order o)
      ∷ truth actual.accepted
      ∷ text (accepted_label actual.accepted)
      ∷ truth expected.accepted
      ∷ text (accepted_label expected.accepted)
      ∷ [])

  abbrev pub price_reason : Order → Fill → GoldenFill → String
  price_reason o actual expected = sprintf price_format (
      text o.id
      ∷ text (describe_order o)
      ∷ number actual.executed_price
      ∷ text (price_label actual.executed_price)
      ∷ number expected.executed_price
      ∷ text (price_label expected.executed_price)
      ∷ [])

  abbrev pub qty_reason : Order → Fill → GoldenFill → String
  qty_reason o actual expected = sprintf qty_format (
      text o.id
      ∷ text (describe_order o)
      ∷ number actual.executed_qty
      ∷ text (qty_label actual.executed_qty)
      ∷ number expected.executed_qty
      ∷ text (qty_label expected.executed_qty)
      ∷ [])

  -- the empty text on a match
  unfoldable pub compare_fills : Order → Fill → GoldenFill → String → String
  compare_fills o actual expected book_context =
      if not (eq_Bool actual.accepted expected.accepted)
      then in_context book_context (accepted_reason o actual expected)
      else if not (eq_ℤ actual.executed_price expected.executed_price)
      then in_context book_context (price_reason o actual expected)
      else if not (eq_ℤ actual.executed_qty expected.executed_qty)
      then in_context book_context (qty_reason o actual expected)
      else ""
