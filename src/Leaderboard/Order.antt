-- ===== src/Leaderboard/Order.antt =====
-- The two comparisons of the leaderboard are one order, and an entry keeps its team and its score.
use nexus_bench.Base.{
  Bool, true, false, ◌&&◌, ◌||◌, not, Option, none, some, List, [], ◌∷◌, ◌≡◌, refl, sym, ◌∙◌,
  if◌then◌else◌, arith, inl, inr, Bool-cases, ltb,
}
use nexus_bench.Base.Float.{FloatOps}
use nexus_bench.Models.{BenchmarkResults, LeaderboardEntry, Submission}
use nexus_bench.Leaderboard.{
  Candidate, Summary, labelled_score, best_p99, peak_tps, count_result, build_leaderboard_entry,
  get_correctness, is_better, ranks_before, summarise, with_results, new_entry,
}

-- What holds of float64 values that are not NaN.
pub record IsOrdered (F : FloatOps) : Type 0 where
  pub lt_asym : (x y : F.Float) → F.lt x y ≡ true → F.lt y x ≡ false
  pub lt_negtrans : (x y z : F.Float) → F.lt x y ≡ false → F.lt y z ≡ false → F.lt x z ≡ false
  pub eq_lem : (x y : F.Float) → F.eq x y ≡ (not (F.lt x y) && not (F.lt y x))

module _ (F : FloatOps) (ordered : IsOrdered F) where
  -- `a` before `b`, by the score and then by the correctness
  abbrev before : F.Float → F.Float → F.Float → F.Float → Bool
  before a x b y = F.lt b a || (F.eq a b && F.lt y x)

  before-asym : (a x b y : F.Float) → before a x b y ≡ true → before b y a x ≡ false
  before-asym a x b y h = ground (
    arith,
    ordered.eq_lem a b,
    ordered.eq_lem b a,
    ordered.lt_asym b a,
    ordered.lt_asym a b,
    ordered.lt_asym y x,
    ordered.lt_asym x y,
  )

  before-negtrans :
      (a x b y c z : F.Float)
      → before c z b y ≡ false
      → before b y a x ≡ false
      → before c z a x ≡ false
  before-negtrans a x b y c z h k = ground (
    arith,
    ordered.eq_lem c b,
    ordered.eq_lem b a,
    ordered.eq_lem c a,
    ordered.lt_negtrans a b c,
    ordered.lt_negtrans b c a,
    ordered.lt_negtrans c a b,
    ordered.lt_negtrans c b a,
    ordered.lt_negtrans b a c,
    ordered.lt_negtrans a c b,
    ordered.lt_negtrans x y z,
  )

  sort_test : (a x b y : F.Float) → (if not (F.eq a b) then F.lt b a else F.lt y x) ≡ before a x b y
  sort_test a x b y = ground (arith, ordered.eq_lem a b)

  pub ranks_before-asym :
      (x y : LeaderboardEntry F) → ranks_before F x y ≡ true → ranks_before F y x ≡ false
  ranks_before-asym x y h =
      sort_test y.composite_score (get_correctness F y) x.composite_score (get_correctness F x)
      ∙ before-asym x.composite_score (get_correctness F x) y.composite_score (get_correctness F y)
          (sym (
              sort_test x.composite_score (get_correctness F x) y.composite_score
                (get_correctness F y))
            ∙ h)

  pub ranks_before-negtrans :
      (x y z : LeaderboardEntry F)
      → ranks_before F z y ≡ false
      → ranks_before F y x ≡ false
      → ranks_before F z x ≡ false
  ranks_before-negtrans x y z h k =
      sort_test z.composite_score (get_correctness F z) x.composite_score (get_correctness F x)
      ∙ before-negtrans x.composite_score (get_correctness F x) y.composite_score
          (get_correctness F y) z.composite_score (get_correctness F z)
          (sym (
              sort_test z.composite_score (get_correctness F z) y.composite_score
                (get_correctness F y))
            ∙ h)
          (sym (
              sort_test y.composite_score (get_correctness F y) x.composite_score
                (get_correctness F x))
            ∙ k)

  pub is_better-asym : (c d : Candidate F) → is_better F c d ≡ true → is_better F d c ≡ false
  is_better-asym c d h =
      before-asym c.score (get_correctness F c.entry) d.score (get_correctness F d.entry) h

  pub is_better-negtrans :
      (c d e : Candidate F)
      → is_better F e d ≡ false
      → is_better F d c ≡ false
      → is_better F e c ≡ false
  is_better-negtrans c d e h k =
      before-negtrans c.score (get_correctness F c.entry) d.score (get_correctness F d.entry)
        e.score (get_correctness F e.entry) h k

module _ (F : FloatOps) where
  -- The team and the score of an entry are those it was made with.
  abbrev Keeps : LeaderboardEntry F → LeaderboardEntry F → Type 0
  Keeps e d = (e.team_name ≡ d.team_name) × (e.composite_score ≡ d.composite_score)

  labelled_score-Keeps :
      (r : BenchmarkResults F) (e : LeaderboardEntry F) → Keeps (labelled_score F r e) e
  labelled_score-Keeps r e = ground arith

  best_p99-Keeps : (r : BenchmarkResults F) (e : LeaderboardEntry F) → Keeps (best_p99 F r e) e
  best_p99-Keeps r e = ground arith

  peak_tps-Keeps : (r : BenchmarkResults F) (e : LeaderboardEntry F) → Keeps (peak_tps F r e) e
  peak_tps-Keeps r e = ground arith

  Keeps-trans : (a b c : LeaderboardEntry F) → Keeps a b → Keeps b c → Keeps a c
  Keeps-trans a b c (h, k) (i, j) = (h ∙ i, k ∙ j)

  count_result-Keeps :
      (r : BenchmarkResults F) (s : Summary F) → Keeps (count_result F r s).entry s.entry
  count_result-Keeps r s =
      let a = labelled_score F r s.entry in
      let b = best_p99 F r a in
      Keeps-trans (peak_tps F r b) b s.entry (peak_tps-Keeps r b)
        (Keeps-trans b a s.entry (best_p99-Keeps r a) (labelled_score-Keeps r s.entry))

  summarise-Keeps :
      (s : Summary F) (rs : List (BenchmarkResults F)) → Keeps (summarise F s rs).entry s.entry
  unfolding summarise
  summarise-Keeps s [] = (refl, refl)
  summarise-Keeps s (r ∷ rs) =
      Keeps-trans (summarise F (count_result F r s) rs).entry (count_result F r s).entry s.entry
        (summarise-Keeps (count_result F r s) rs) (count_result-Keeps r s)

  with_results-Keeps :
      (r : Option (BenchmarkResults F)) (e : LeaderboardEntry F) → Keeps (with_results F r e) e
  with_results-Keeps none e = (refl, refl)
  with_results-Keeps (some r) e = (refl, refl)

  pub build_leaderboard_entry-Keeps :
      (sub : Submission F) (score : F.Float)
      → ((build_leaderboard_entry F sub score).team_name ≡ sub.team_name)
        × ((build_leaderboard_entry F sub score).composite_score ≡ score)
  unfolding build_leaderboard_entry
  build_leaderboard_entry-Keeps sub score =
      let entry = with_results F sub.results (new_entry F sub score) in
      let start : Summary F = record {
        entry = entry;
        sum_correctness = F.of_ℕ 0;
        count_correctness = 0;
      } in
      let s = summarise F start sub.all_results in
      let keeps =
        Keeps-trans s.entry entry (new_entry F sub score) (summarise-Keeps start sub.all_results)
          (with_results-Keeps sub.results (new_entry F sub score)) in
      elim (Bool-cases (ltb 0 s.count_correctness)) [
        | inl e ↦ rw (build_leaderboard_entry, e) keeps
        | inr e ↦ rw (build_leaderboard_entry, e) keeps
      ]
