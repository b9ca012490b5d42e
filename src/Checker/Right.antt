-- ===== src/Checker/Right.antt =====
-- How internal/correctness/checker.go counts a contestant that gives the golden answer to every order.
use nexus_bench.Base.{
  ℕ, ◌+◌, ◌<◌, ◌≡◌, ◌≢◌, refl, ◌∙◌, ap, sym, String, Bool, true, false, ◌||◌, none, List, [], ◌∷◌,
  ◌++◌, map, arith, str_eq, eq_iff, eq_ℤ_iff, if◌then◌else◌, inl, inr, Bool-cases,
}
use mathlib.Core.List.{append_assoc}
use nexus_bench.Base.Dict.{Dict, get, put, get-put}
use nexus_bench.Orderbook.{GoldenFill}
use nexus_bench.Checker.{
  ContestantFill, Tally, fills_match, golden_by_id, is_matched, tally_fill, tally_fills, unmatched,
  count_fills, no_tally,
}
use nexus_bench.Checker.Counting.{
  find_fill, answered, has, get-golden_by_id, tally_fills-matched, keys,
}

-- The answer of a contestant that is right.
abbrev pub right_answer : GoldenFill → ContestantFill
right_answer g = record {
  order_id = g.order_id;
  executed_price = g.executed_price;
  executed_qty = g.executed_qty;
  accepted = g.accepted;
}

abbrev pub right_answers : List GoldenFill → List ContestantFill
right_answers = map right_answer

-- The fills whose ID stands in no fill before them, and those that repeat an ID. `seen` is what
-- stands before the list.
abbrev pub first_fills : List GoldenFill → List GoldenFill → ℕ
first_fills seen [] = 0
first_fills seen (g ∷ gs) =
    (if answered g.order_id (right_answers seen) then 0 else 1) + first_fills (seen ++ g ∷ []) gs

abbrev pub repeated_fills : List GoldenFill → List GoldenFill → ℕ
repeated_fills seen [] = 0
repeated_fills seen (g ∷ gs) =
    (if answered g.order_id (right_answers seen) then 1 else 0) + repeated_fills (seen ++ g ∷ []) gs

right_answer-match : (g : GoldenFill) → fills_match (right_answer g) g ≡ true
unfolding fills_match
right_answer-match g = ground (
  arith,
  (eq_ℤ_iff g.executed_price g.executed_price).1 refl,
  (eq_ℤ_iff g.executed_qty g.executed_qty).1 refl,
)

find_fill-append :
    (id : String) (seen gs : List GoldenFill)
    → answered id (right_answers seen) ≡ false
    → find_fill id (seen ++ gs) ≡ find_fill id gs
find_fill-append id [] gs h = refl
find_fill-append id (x ∷ seen) gs h = ground (arith, find_fill-append id seen gs)

find_fill-known :
    (id : String) (seen gs : List GoldenFill)
    → answered id (right_answers seen) ≡ true
    → find_fill id (seen ++ gs) ≢ none
find_fill-known id [] gs h = λ e. cc
find_fill-known id (x ∷ seen) gs h = ground (arith, find_fill-known id seen gs)

answered-append :
    (id : String) (seen : List GoldenFill) (g : GoldenFill)
    → answered id (right_answers (seen ++ g ∷ []))
      ≡ (answered id (right_answers seen) || str_eq g.order_id id)
answered-append id [] g = ground arith
answered-append id (x ∷ seen) g = ground (arith, answered-append id seen g)

first_right :
    (seen gs : List GoldenFill) (g : GoldenFill) (t : Tally)
    → answered g.order_id (right_answers seen) ≡ false
    → is_matched g.order_id t.matched ≡ false
    → tally_fill (golden_by_id (seen ++ g ∷ gs) []) t (right_answer g) ≡ record {
      matched = put g.order_id true t.matched;
      correct = t.correct + 1;
      incorrect = t.incorrect;
    }
unfolding tally_fill get
first_right seen gs g t h m = ground (
  arith,
  get-golden_by_id g.order_id (seen ++ g ∷ gs) [],
  find_fill-append g.order_id seen (g ∷ gs) h,
  eq_iff g.order_id g.order_id,
  h,
  m,
  right_answer-match g,
)

repeated_wrong :
    (seen gs : List GoldenFill) (g : GoldenFill) (t : Tally)
    → answered g.order_id (right_answers seen) ≡ true
    → is_matched g.order_id t.matched ≡ true
    → tally_fill (golden_by_id (seen ++ g ∷ gs) []) t (right_answer g)
      ≡ record t { incorrect = t.incorrect + 1 }
unfolding tally_fill get
repeated_wrong seen gs g t h m = ground (
  arith,
  get-golden_by_id g.order_id (seen ++ g ∷ gs) [],
  find_fill-known g.order_id seen (g ∷ gs) h,
  m,
)

find_fill-answered :
    (id : String) (gs : List GoldenFill)
    → find_fill id gs ≢ none
    → answered id (right_answers gs) ≡ true
find_fill-answered id [] h = absurd (h refl)
find_fill-answered id (x ∷ gs) h = ground (arith, find_fill-answered id gs)

keys-has : (id : String) (m : Dict GoldenFill) → 0 < keys id m → has id m ≡ true
unfolding get
keys-has id [] h = absurd (omega arith)
keys-has id ((j, w) ∷ m) h = ground (arith, h, keys-has id m)

-- What the loop knows of the fills before it.
abbrev Matches : List GoldenFill → Tally → Type 0
Matches seen t = (id : String) → is_matched id t.matched ≡ answered id (right_answers seen)

Matches-first :
    (seen : List GoldenFill) (g : GoldenFill) (t : Tally) (c i : ℕ)
    → Matches seen t
    → Matches
        (seen ++ g ∷ [])
        (record { matched = put g.order_id true t.matched; correct = c; incorrect = i })
Matches-first seen g t c i h id =
    ground (arith, h id, answered-append id seen g, get-put g.order_id id true t.matched)

Matches-repeated :
    (seen : List GoldenFill) (g : GoldenFill) (t : Tally) (i : ℕ)
    → answered g.order_id (right_answers seen) ≡ true
    → Matches seen t
    → Matches (seen ++ g ∷ []) (record t { incorrect = i })
Matches-repeated seen g t i a h id =
    ground (arith, h id, h g.order_id, a, answered-append id seen g, eq_iff g.order_id id)

after_one :
    (seen gs : List GoldenFill) (g : GoldenFill) (t t' : Tally)
    → tally_fill (golden_by_id (seen ++ g ∷ gs) []) t (right_answer g) ≡ t'
    → tally_fills (golden_by_id (seen ++ g ∷ gs) []) (right_answers (g ∷ gs)) t
      ≡ tally_fills (golden_by_id ((seen ++ g ∷ []) ++ gs) []) (right_answers gs) t'
unfolding tally_fills
after_one seen gs g t t' e =
    ap (tally_fills (golden_by_id (seen ++ g ∷ gs) []) (right_answers gs)) e
    ∙ ap (λ all. tally_fills (golden_by_id all []) (right_answers gs) t')
        (sym (append_assoc seen (g ∷ []) gs))

tally_right :
    (seen gs : List GoldenFill) (t : Tally)
    → Matches seen t
    → let u = tally_fills (golden_by_id (seen ++ gs) []) (right_answers gs) t in
      (u.correct ≡ t.correct + first_fills seen gs)
      × (u.incorrect ≡ t.incorrect + repeated_fills seen gs)
unfolding tally_fills
tally_right seen [] t h = omega arith
tally_right seen (g ∷ gs) t h = elim (Bool-cases (answered g.order_id (right_answers seen))) [
  | inl a ↦
      let rest =
        tally_right (seen ++ g ∷ []) gs (record t { incorrect = t.incorrect + 1 })
          (Matches-repeated seen g t (t.incorrect + 1) a h) in
      let step = after_one seen gs g t _ (repeated_wrong seen gs g t a (h g.order_id ∙ a)) in
      ground (arith, a, ap (λ u. u.correct) step, ap (λ u. u.incorrect) step, rest)
  | inr a ↦
      let t' : Tally = record {
        matched = put g.order_id true t.matched;
        correct = t.correct + 1;
        incorrect = t.incorrect;
      } in
      let rest =
        tally_right (seen ++ g ∷ []) gs t' (Matches-first seen g t (t.correct + 1) t.incorrect h) in
      let step = after_one seen gs g t t' (first_right seen gs g t a (h g.order_id ∙ a)) in
      ground (arith, a, ap (λ u. u.correct) step, ap (λ u. u.incorrect) step, rest)
]

unmatched-none :
    (golden : Dict GoldenFill) (matched : Dict Bool)
    → ((id : String) → 0 < keys id golden → is_matched id matched ≡ true)
    → unmatched golden matched ≡ 0
unfolding unmatched
unmatched-none [] matched h = refl
unmatched-none ((id, g) ∷ m) matched h =
    ground (arith, h id, eq_iff id id, unmatched-none m matched (λ j k. h j (omega (arith, k))))

known_matched :
    (gs : List GoldenFill) (id : String)
    → 0 < keys id (golden_by_id gs [])
    → is_matched id (tally_fills (golden_by_id gs []) (right_answers gs) no_tally).matched ≡ true
unfolding get
known_matched gs id h = ground (
  arith,
  h,
  keys-has id (golden_by_id gs []),
  get-golden_by_id id gs [],
  tally_fills-matched (golden_by_id gs []) id (right_answers gs) no_tally,
  find_fill-answered id gs,
)

-- A contestant that gives the golden answer to every order has a correct fill for each ID, and an
-- incorrect one for each fill whose ID stood in a fill before.
pub count_fills-right_answers :
    (gs : List GoldenFill)
    → (count_fills (right_answers gs) gs).correct_fills ≡ first_fills [] gs
      × (count_fills (right_answers gs) gs).incorrect_fills ≡ repeated_fills [] gs
unfolding count_fills get
count_fills-right_answers gs =
    let loop = tally_right [] gs no_tally (λ id. refl) in
    let matched = (tally_fills (golden_by_id gs []) (right_answers gs) no_tally).matched in
    omega (arith, loop, unmatched-none (golden_by_id gs []) matched (known_matched gs))
