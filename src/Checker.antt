-- ===== src/Checker.antt =====
-- internal/correctness/checker.go: contestant fills against golden fills. The int64 counters count
-- list elements, so they stay far from the word's limit and are natural numbers. A Go map is read
-- in no fixed order; the one loop over a map here only counts.
pub mod Counting
pub mod Laws
pub mod Right
use nexus_bench.Base.{
  ℕ, suc, ◌+◌, String, Bool, true, false, ◌&&◌, ◌||◌, not, Option, none, some, List, [], ◌∷◌, ℤ,
  eq_ℤ, ltb, if◌then◌else◌,
}
use nexus_bench.Base.Dict.{Dict, get, put}
use nexus_bench.Base.Float.{FloatOps}
use nexus_bench.Orderbook.{GoldenFill}

pub record ContestantFill : Type 0 where
  pub order_id : String
  pub executed_price : ℤ
  pub executed_qty : ℤ
  pub accepted : Bool

abbrev pub eq_Bool : Bool → Bool → Bool
eq_Bool true b = b
eq_Bool false b = not b

unfoldable pub fills_match : ContestantFill → GoldenFill → Bool
fills_match cf gf =
    eq_Bool cf.accepted gf.accepted
    && (eq_ℤ cf.executed_price gf.executed_price && eq_ℤ cf.executed_qty gf.executed_qty)

-- the loop that fills `goldenByID`: the first fill of an ID stays
unfoldable pub golden_by_id : List GoldenFill → Dict GoldenFill → Dict GoldenFill
golden_by_id [] m = m
golden_by_id (gf ∷ gfs) m =
    golden_by_id gfs (elim (get gf.order_id m) [ none ↦ put gf.order_id gf m | some seen ↦ m ])

-- The variables of the loop over the contestant fills.
pub record Tally : Type 0 where
  pub matched : Dict Bool
  pub correct : ℕ
  pub incorrect : ℕ

-- `matched[id]`: a missing key reads as false
abbrev pub is_matched : String → Dict Bool → Bool
is_matched id m = elim (get id m) [ none ↦ false | some b ↦ b ]

abbrev pub judge : ContestantFill → GoldenFill → Tally → Tally
judge cf gf t =
    let seen : Tally = record t { matched = put cf.order_id true t.matched } in
    if fills_match cf gf
    then record seen { correct = t.correct + 1 }
    else record seen { incorrect = t.incorrect + 1 }

unfoldable pub tally_fill : Dict GoldenFill → Tally → ContestantFill → Tally
tally_fill golden t cf = elim (get cf.order_id golden) [
  | none ↦ record t { incorrect = t.incorrect + 1 }
  | some gf ↦
      if is_matched cf.order_id t.matched
      then record t { incorrect = t.incorrect + 1 }
      else judge cf gf t
]

unfoldable pub tally_fills : Dict GoldenFill → List ContestantFill → Tally → Tally
tally_fills golden [] t = t
tally_fills golden (cf ∷ cfs) t = tally_fills golden cfs (tally_fill golden t cf)

-- the loop over `goldenByID`: IDs without a contestant fill
unfoldable pub unmatched : Dict GoldenFill → Dict Bool → ℕ
unmatched [] matched = 0
unmatched ((id, gf) ∷ m) matched = (if is_matched id matched then 0 else 1) + unmatched m matched

pub record Counts : Type 0 where
  pub total_fills : ℕ
  pub correct_fills : ℕ
  pub incorrect_fills : ℕ

abbrev pub no_tally : Tally
no_tally = record { matched = []; correct = 0; incorrect = 0 }

unfoldable pub count_fills : List ContestantFill → List GoldenFill → Counts
count_fills cfs gfs =
    let golden = golden_by_id gfs [] in
    let t = tally_fills golden cfs no_tally in
    let incorrect = t.incorrect + unmatched golden t.matched in
    record {
      total_fills = t.correct + incorrect;
      correct_fills = t.correct;
      incorrect_fills = incorrect;
    }

module _ (F : FloatOps) where
  open F use {Float, of_ℕ, div}

  pub record CorrectnessResult : Type 0 where
    pub score : Float
    pub counts : Counts

  abbrev no_fills : CorrectnessResult
  no_fills = record {
    score = of_ℕ 0;
    counts = record { total_fills = 0; correct_fills = 0; incorrect_fills = 0 };
  }

  abbrev scored : Counts → CorrectnessResult
  scored c = record {
    score = if ltb 0 c.total_fills then div (of_ℕ c.correct_fills) (of_ℕ c.total_fills) else of_ℕ 0;
    counts = c;
  }

  -- `Check`, with its early return where both slices are empty
  unfoldable pub check : List ContestantFill → List GoldenFill → CorrectnessResult
  check [] [] = no_fills
  check cfs gfs = scored (count_fills cfs gfs)
