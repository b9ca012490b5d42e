-- ===== src/Leaderboard/Board.antt =====
-- The leaderboard: each team once, with its best submission, in ranked order.
use mathlib.Core.List.Perm
use nexus_bench.Base.{
  some-injective, ℕ, suc, ◌<◌, min, Perm, String, Bool, true, false, none, some, List, [], ◌∷◌, map,
  ◌≡◌, ◌⊎◌, refl, sym, ap, subst, ◌∙◌, arith, inl, inr, All, str_eq, eq_iff, count_if,
  if◌then◌else◌,
}
use nexus_bench.Base.Dict.{Dict, get, keys, keys-get, keys-get-none, All-get}
use nexus_bench.Base.Float.{FloatOps}
use nexus_bench.Base.Sorting.{IsSortSlice, IsSorted}
use nexus_bench.Base.Rearranged.{All-prop, All-perm, sum_of-perm}
use nexus_bench.Models.{LeaderboardEntry, Submission}
use nexus_bench.Contest.Ranking.{RanksFrom, unranked}
use nexus_bench.Leaderboard.{
  Candidate, assign_board_ranks, best_by_team, build_deduped_leaderboard, build_leaderboard_entry,
  candidate, effective_score, is_better, ranks_before,
}
use nexus_bench.Leaderboard.Order.{
  IsOrdered, ranks_before-asym, ranks_before-negtrans, build_leaderboard_entry-Keeps,
}
use nexus_bench.Leaderboard.PerTeam.{
  best_for, ComesFrom, NotBeaten, best_for_lem, get-best_by_team, is_candidate, keys-best_by_team,
}

none-some {ℓ} : {A : Type ℓ} {x : A} → none ≡ some x → ⊥
none-some e = cc

module _ (F : FloatOps) where
  abbrev pub as_candidate : LeaderboardEntry F → Candidate F
  as_candidate e = record { entry = e; score = e.composite_score }

  -- Apart from its rank, the entry is built from one of the team's completed submissions.
  abbrev pub BuiltFrom : LeaderboardEntry F → List (Submission F) → Type 0
  BuiltFrom e [] = ⊥
  BuiltFrom e (s ∷ ss) =
      ((is_candidate F e.team_name s ≡ true)
        × (unranked F e ≡ unranked F (build_leaderboard_entry F s (effective_score F s))))
      ⊎ BuiltFrom e ss

  -- ... and no completed submission of the team is better.
  abbrev pub IsBest : List (Submission F) → LeaderboardEntry F → Type 0
  IsBest subs e = ∥ BuiltFrom e subs ∥₁ × NotBeaten F e.team_name (as_candidate e) subs

  IsBest-prop : (subs : List (Submission F)) (e : LeaderboardEntry F) → IsProp (IsBest subs e)
  IsBest-prop subs e = hlevel (
      All-prop
        (λ s.
          is_candidate F e.team_name s ≡ true
          → is_better F (candidate F s) (as_candidate e) ≡ false)
        (λ s. hlevel) subs)

  ComesFrom-team :
      (team : String) (c : Candidate F) (subs : List (Submission F))
      → ComesFrom F team c subs
      → (c.entry.team_name ≡ team) × (c.entry.composite_score ≡ c.score)
  unfolding candidate
  ComesFrom-team team c [] h = absurd h
  ComesFrom-team team c (s ∷ ss) (inr h) = ComesFrom-team team c ss h
  ComesFrom-team team c (s ∷ ss) (inl (h, e)) =
      let (t, c') = build_leaderboard_entry-Keeps F s (effective_score F s) in
      subst (λ (x : Candidate F). (x.entry.team_name ≡ team) × (x.entry.composite_score ≡ x.score))
        (sym e) (t ∙ (eq_iff s.team_name team).0 (ground arith), c')

  ComesFrom-BuiltFrom :
      (c : Candidate F) (subs : List (Submission F))
      → ComesFrom F c.entry.team_name c subs
      → BuiltFrom c.entry subs
  unfolding candidate
  ComesFrom-BuiltFrom c [] h = h
  ComesFrom-BuiltFrom c (s ∷ ss) (inl (h, e)) =
      inl (h, ap (λ (x : Candidate F). unranked F x.entry) e)
  ComesFrom-BuiltFrom c (s ∷ ss) (inr h) = inr (ComesFrom-BuiltFrom c ss h)

  ComesFrom-count :
      (team : String) (c : Candidate F) (subs : List (Submission F))
      → ComesFrom F team c subs
      → 0 < count_if (is_candidate F team) subs
  ComesFrom-count team c [] h = absurd h
  ComesFrom-count team c (s ∷ ss) (inl (h, e)) = rw h (omega arith)
  ComesFrom-count team c (s ∷ ss) (inr h) = omega (arith, ComesFrom-count team c ss h)

  RanksFrom-assign :
      (n : ℕ) (es : List (LeaderboardEntry F)) → RanksFrom F n (assign_board_ranks F n es)
  unfolding assign_board_ranks
  RanksFrom-assign n [] = tt
  RanksFrom-assign n (e ∷ es) = (refl, RanksFrom-assign (suc n) es)

  -- What does not look at the rank stays when the ranks are assigned.
  All-assign :
      (P : LeaderboardEntry F → Type 0)
      → ((e : LeaderboardEntry F) (m : ℕ) → P e → P (record e { rank = m }))
      → (n : ℕ) (es : List (LeaderboardEntry F)) → All P es
      → All P (assign_board_ranks F n es)
  unfolding assign_board_ranks
  All-assign P r n [] h = tt
  All-assign P r n (e ∷ es) (h, hs) = (r e n h, All-assign P r (suc n) es hs)

  IsSorted-assign :
      (n : ℕ) (es : List (LeaderboardEntry F))
      → IsSorted (ranks_before F) es
      → IsSorted (ranks_before F) (assign_board_ranks F n es)
  unfolding assign_board_ranks
  IsSorted-assign n [] h = tt
  IsSorted-assign n (e ∷ es) (h, hs) = (
    All-assign (λ x. ranks_before F x e ≡ false) (λ x m k. k) (suc n) es h,
    IsSorted-assign (suc n) es hs,
  )

  abbrev pub entries_of : String → List (LeaderboardEntry F) → ℕ
  entries_of team = count_if λ e. str_eq e.team_name team

  entries_of-assign :
      (team : String) (n : ℕ) (es : List (LeaderboardEntry F))
      → entries_of team (assign_board_ranks F n es) ≡ entries_of team es
  unfolding assign_board_ranks
  entries_of-assign team n [] = refl
  entries_of-assign team n (e ∷ es) = omega (arith, entries_of-assign team (suc n) es)

  -- What the loop leaves under a team.
  IsGood : List (Submission F) → String → Candidate F → Type 0
  IsGood subs team c = (c.entry.team_name ≡ team) × IsBest subs c.entry

  chosen-IsGood :
      (subs : List (Submission F)) (team : String) (c : Candidate F)
      → NotBeaten F team c subs
      → ComesFrom F team c subs
      → IsGood subs team c
  unfolding IsGood
  chosen-IsGood subs team c q r =
      let (t, k) = ComesFrom-team team c subs r in
      let (q', r') =
        subst (λ (x : String). NotBeaten F x c subs × ComesFrom F x c subs) (sym t) (q, r) in
      let scored : F.Float → Candidate F = λ x. record { entry = c.entry; score = x } in
      (
        t,
        (
          ∣ ComesFrom-BuiltFrom c subs r' ∣₁,
          subst (λ (x : F.Float). NotBeaten F c.entry.team_name (scored x) subs) (sym k) q',
        ),
      )

  module _ (ordered : IsOrdered F) (subs : List (Submission F)) where
    board_map : Dict (Candidate F)
    board_map = best_by_team F [] subs

    get-chosen :
        (team : String) (c d : Candidate F)
        → best_for F team none subs ≡ some d
        → get team board_map ≡ some c
        → d ≡ c
    unfolding board_map get
    get-chosen team c d p e = some-injective (sym p ∙ sym (get-best_by_team F team [] subs) ∙ e)

    get-IsGood :
        (team : String) (c : Candidate F) → get team board_map ≡ some c → IsGood subs team c
    unfolding board_map get
    get-IsGood team c e = elim (best_for_lem F ordered team subs) [
      | inr (p, n) ↦ absurd (none-some (sym p ∙ sym (get-best_by_team F team [] subs) ∙ e))
      | inl (d, (p, (q, r))) ↦
          let (q', r') =
            subst (λ (x : Candidate F). NotBeaten F team x subs × ComesFrom F team x subs)
              (get-chosen team c d p e) (q, r) in
          chosen-IsGood subs team c q' r'
    ]

    board_keys : (team : String) → keys team board_map ≡ min 1 (count_if (is_candidate F team) subs)
    unfolding board_map get
    board_keys team = elim (best_for_lem F ordered team subs) [
      | inr (p, n) ↦
          omega (arith, n, keys-get-none team board_map (get-best_by_team F team [] subs ∙ p))
      | inl (d, (p, (q, r))) ↦ omega (
        arith,
        ComesFrom-count team d subs r,
        keys-get team d board_map (get-best_by_team F team [] subs ∙ p),
        keys-best_by_team F team [] subs (omega arith),
      )
    ]

    board_map-IsGood : All (λ kc. IsGood subs kc.0 kc.1) board_map
    board_map-IsGood = All-get (IsGood subs) board_map (λ k. omega (arith, board_keys k)) get-IsGood

  entry_of : String × Candidate F → LeaderboardEntry F
  entry_of kc = kc.1.entry

  map-IsBest :
      (subs : List (Submission F)) (m : Dict (Candidate F))
      → All (λ kc. IsGood subs kc.0 kc.1) m
      → All (IsBest subs) (map entry_of m)
  unfolding entry_of IsGood
  map-IsBest subs [] h = tt
  map-IsBest subs (kc ∷ m) (h, hs) = (h.1, map-IsBest subs m hs)

  entries_of-keys :
      (subs : List (Submission F)) (team : String) (m : Dict (Candidate F))
      → All (λ kc. IsGood subs kc.0 kc.1) m
      → entries_of team (map entry_of m) ≡ keys team m
  unfolding entry_of IsGood
  entries_of-keys subs team [] h = refl
  entries_of-keys subs team ((k, c) ∷ m) ((e, b), hs) =
      rw e (omega (arith, entries_of-keys subs team m hs))

  rearranged :
      (sort_slice : (LeaderboardEntry F → LeaderboardEntry F → Bool)
        → List (LeaderboardEntry F)
        → List (LeaderboardEntry F))
      (range : Dict (Candidate F) → List (String × Candidate F))
      → IsSortSlice sort_slice
      → ((m : Dict (Candidate F)) → Perm (range m) m)
      → (m : Dict (Candidate F))
      → Perm (sort_slice (ranks_before F) (map entry_of (range m))) (map entry_of m)
  rearranged sort_slice range sorting ranging m =
      Perm.trans (sorting.rearranges (ranks_before F) (map entry_of (range m)))
        (Perm.map entry_of (ranging m))

  -- Where the float64 values are ordered (none is a NaN), `sort.Slice` sorts and `range` yields every entry of a map
  -- once, in any order, the leaderboard has exactly one entry for each team with a completed submission and
  -- none for any other team; each entry is built from a completed submission of its team, and none of the team's
  -- completed submissions is better; the entries are numbered 1, 2, … and none stands behind one
  -- that ranks lower.
  pub build_deduped_leaderboard_lem :
      (ordered : IsOrdered F)
      (sort_slice : (LeaderboardEntry F → LeaderboardEntry F → Bool)
        → List (LeaderboardEntry F)
        → List (LeaderboardEntry F))
      (range : Dict (Candidate F) → List (String × Candidate F))
      → IsSortSlice sort_slice
      → ((m : Dict (Candidate F)) → Perm (range m) m)
      → (subs : List (Submission F))
      → let board = build_deduped_leaderboard F sort_slice range subs in
        ((team : String) → entries_of team board ≡ min 1 (count_if (is_candidate F team) subs))
        × (All (IsBest subs) board × (RanksFrom F 1 board × IsSorted (ranks_before F) board))
  unfolding build_deduped_leaderboard board_map entry_of
  build_deduped_leaderboard_lem ordered sort_slice range sorting ranging subs =
      let m = best_by_team F [] subs in
      let sorted = sort_slice (ranks_before F) (map (λ kc. kc.1.entry) (range m)) in
      let perm : Perm sorted (map entry_of m) = rearranged sort_slice range sorting ranging m in
      let good = board_map-IsGood ordered subs in
      (
        (λ team.
            entries_of-assign team 1 sorted
            ∙ sum_of-perm (λ e. if str_eq e.team_name team then 1 else 0) perm
            ∙ entries_of-keys subs team m good
            ∙ board_keys ordered subs team),
        (
          All-assign (IsBest subs) (λ e k h. h) 1 sorted
              (All-perm (IsBest subs) (IsBest-prop subs) (Perm.symm perm) (map-IsBest subs m good)),
          (
            RanksFrom-assign 1 sorted,
            IsSorted-assign 1 sorted (
                sorting.sorts (ranks_before F) (ranks_before-asym F ordered)
                  (ranks_before-negtrans F ordered) _),
          ),
        ),
      )
