-- ===== src/Checker/Counting.antt =====
-- Lemmas on the loops of internal/correctness/checker.go.
use nexus_bench.Base.{
  ℕ, suc, ◌+◌, ◌≤◌, ◌<◌, ◌≡◌, refl, String, Bool, true, false, ◌&&◌, ◌||◌, Option, none, some, List,
  [], ◌∷◌, ◌++◌, arith, sum_of, if◌then◌else◌, str_eq, eq_iff,
}
use nexus_bench.Base.Dict.{Dict, get, put, get-put}
use nexus_bench.Orderbook.{GoldenFill}
use nexus_bench.Checker.{
  ContestantFill, Tally, golden_by_id, is_matched, tally_fill, tally_fills, unmatched,
}

-- The first golden fill of an ID, and whether the contestant has a fill of an ID.
abbrev pub find_fill : String → List GoldenFill → Option GoldenFill
find_fill id [] = none
find_fill id (g ∷ gs) = if str_eq g.order_id id then some g else find_fill id gs

abbrev pub answered : String → List ContestantFill → Bool
answered id [] = false
answered id (c ∷ cs) = str_eq c.order_id id || answered id cs

abbrev pub has : String → Dict GoldenFill → Bool
has id m = elim (get id m) [ none ↦ false | some g ↦ true ]

abbrev pub or_else {ℓ} : {A : Type ℓ} → Option A → Option A → Option A
or_else none b = b
or_else (some a) b = some a

abbrev pub add_golden : GoldenFill → Dict GoldenFill → Dict GoldenFill
add_golden gf m = elim (get gf.order_id m) [ none ↦ put gf.order_id gf m | some seen ↦ m ]

-- `goldenByID` maps each ID to its first fill.
pub get-golden_by_id :
    (id : String) (gs : List GoldenFill) (m : Dict GoldenFill)
    → get id (golden_by_id gs m) ≡ or_else (get id m) (find_fill id gs)
unfolding golden_by_id
get-golden_by_id id [] m = ground arith
get-golden_by_id id (g ∷ gs) m = ground (
  arith,
  get-golden_by_id id gs (add_golden g m),
  get-put g.order_id id g m,
  eq_iff g.order_id id,
)

pub golden_by_id-append :
    (gs : List GoldenFill) (g : GoldenFill) (m : Dict GoldenFill)
    → golden_by_id (gs ++ g ∷ []) m ≡ add_golden g (golden_by_id gs m)
unfolding golden_by_id
golden_by_id-append [] g m = refl
golden_by_id-append (x ∷ gs) g m = golden_by_id-append gs g (add_golden x m)

pub tally_fills-append :
    (golden : Dict GoldenFill) (cs : List ContestantFill) (c : ContestantFill) (t : Tally)
    → tally_fills golden (cs ++ c ∷ []) t ≡ tally_fill golden (tally_fills golden cs t) c
unfolding tally_fills
tally_fills-append golden [] c t = refl
tally_fills-append golden (x ∷ cs) c t = tally_fills-append golden cs c (tally_fill golden t x)

tally_fill-matched :
    (golden : Dict GoldenFill) (id : String) (c : ContestantFill) (t : Tally)
    → is_matched id (tally_fill golden t c).matched
      ≡ (is_matched id t.matched || (str_eq c.order_id id && has id golden))
unfolding tally_fill
tally_fill-matched golden id c t =
    ground (arith, eq_iff c.order_id id, get-put c.order_id id true t.matched)

-- An ID is matched by the loop exactly when it is answered and has a golden fill.
pub tally_fills-matched :
    (golden : Dict GoldenFill) (id : String) (cs : List ContestantFill) (t : Tally)
    → is_matched id (tally_fills golden cs t).matched
      ≡ (is_matched id t.matched || (answered id cs && has id golden))
unfolding tally_fills
tally_fills-matched golden id [] t = ground arith
tally_fills-matched golden id (c ∷ cs) t = ground (
  arith,
  tally_fills-matched golden id cs (tally_fill golden t c),
  tally_fill-matched golden id c t,
)

-- How often a key stands in the map: never twice in a map that Go could hold.
abbrev pub keys : String → Dict GoldenFill → ℕ
keys id = sum_of λ (e : String × GoldenFill). if str_eq e.0 id then 1 else 0

keys-put :
    (id k : String) (g : GoldenFill) (m : Dict GoldenFill)
    → get k m ≡ none
    → keys id (put k g m) ≡ keys id m + (if str_eq k id then 1 else 0)
unfolding get put
keys-put id k g [] e = omega arith
keys-put id k g ((j, w) ∷ m) e = ground (arith, eq_iff j k, keys-put id k g m)

keys-get : (id : String) (m : Dict GoldenFill) → get id m ≡ none → keys id m ≡ 0
unfolding get
keys-get id [] e = refl
keys-get id ((j, w) ∷ m) e = ground (arith, keys-get id m)

pub has-keys : (id : String) (m : Dict GoldenFill) → has id m ≡ true → 0 < keys id m
unfolding get
has-keys id [] e = cc
has-keys id ((j, w) ∷ m) e = ground (arith, has-keys id m)

add_golden-keys :
    (id : String) (g : GoldenFill) (m : Dict GoldenFill)
    → keys id m ≤ 1
    → keys id (add_golden g m) ≤ 1
add_golden-keys id g m u =
    ground (arith, keys-put id g.order_id g m, keys-get g.order_id m, eq_iff g.order_id id)

pub golden_by_id-keys :
    (id : String) (gs : List GoldenFill) (m : Dict GoldenFill)
    → keys id m ≤ 1
    → keys id (golden_by_id gs m) ≤ 1
unfolding golden_by_id
golden_by_id-keys id [] m u = u
golden_by_id-keys id (g ∷ gs) m u =
    golden_by_id-keys id gs (add_golden g m) (add_golden-keys id g m u)

unmatched-other :
    (id : String) (golden : Dict GoldenFill) (matched : Dict Bool)
    → keys id golden ≡ 0
    → unmatched golden (put id true matched) ≡ unmatched golden matched
unfolding unmatched
unmatched-other id [] matched e = refl
unmatched-other id ((j, g) ∷ m) matched e =
    ground
      (arith, eq_iff id j, eq_iff j id, get-put id j true matched, unmatched-other id m matched)

-- Matching an ID takes it off the IDs that are still to be counted as incorrect.
pub unmatched-put :
    (id : String) (golden : Dict GoldenFill) (matched : Dict Bool)
    → keys id golden ≡ 1
    → is_matched id matched ≡ false
    → unmatched golden matched ≡ suc (unmatched golden (put id true matched))
unfolding unmatched
unmatched-put id [] matched k e = absurd (omega arith)
unmatched-put id ((j, g) ∷ m) matched k e = ground (
  arith,
  eq_iff id j,
  eq_iff j id,
  get-put id j true matched,
  unmatched-put id m matched,
  unmatched-other id m matched,
)
