-- ===== src/Contest/Ranking.antt =====
-- The archived leaderboard of internal/contest/service.go (`rankEntries`), and `List`.
use nexus_bench.Base.{
  ℕ, suc, ◌≡◌, refl, ap, String, Bool, true, false, none, some, List, [], ◌∷◌, map, arith, Perm,
  All, inl, inr, Option-cases, eq_iff,
}
use mathlib.Core.List.Perm
use nexus_bench.Base.Dict.{Dict, get}
use nexus_bench.Base.Float.{FloatOps}
use nexus_bench.Base.Sorting.{IsSortSlice, IsSorted}
use nexus_bench.Models.{Contest, LeaderboardEntry}
use nexus_bench.Contest.Store.{MemoryContestStore, list_ids, list_contests}
use nexus_bench.Contest.Service.{rank_entries, assign_ranks, higher_score}
use nexus_bench.Contest.Legal.{IsLegal, listed}

module _ (F : FloatOps) where
  abbrev pub RanksFrom : ℕ → List (LeaderboardEntry F) → Type 0
  RanksFrom n [] = Unit
  RanksFrom n (e ∷ es) = (e.rank ≡ n) × RanksFrom (suc n) es

  -- An entry without its rank.
  abbrev pub unranked : LeaderboardEntry F → LeaderboardEntry F
  unranked e = record e { rank = 0 }

  assign_ranks-ranks : (n : ℕ) (es : List (LeaderboardEntry F)) → RanksFrom n (assign_ranks F n es)
  unfolding assign_ranks
  assign_ranks-ranks n [] = tt
  assign_ranks-ranks n (e ∷ es) = (refl, assign_ranks-ranks (suc n) es)

  assign_ranks-unranked :
      (n : ℕ) (es : List (LeaderboardEntry F))
      → map unranked (assign_ranks F n es) ≡ map unranked es
  unfolding assign_ranks
  assign_ranks-unranked n [] = refl
  assign_ranks-unranked n (e ∷ es) = ap (◌∷◌ (unranked e)) (assign_ranks-unranked (suc n) es)

  All-assign_ranks :
      (e : LeaderboardEntry F) (m n : ℕ) (es : List (LeaderboardEntry F))
      → All (λ x. higher_score F x e ≡ false) es
      → All (λ x. higher_score F x (record e { rank = m }) ≡ false) (assign_ranks F n es)
  unfolding assign_ranks
  All-assign_ranks e m n [] h = tt
  All-assign_ranks e m n (x ∷ es) h = (h.0, All-assign_ranks e m (suc n) es h.1)

  assign_ranks-IsSorted :
      (n : ℕ) (es : List (LeaderboardEntry F))
      → IsSorted (higher_score F) es
      → IsSorted (higher_score F) (assign_ranks F n es)
  unfolding assign_ranks
  assign_ranks-IsSorted n [] h = tt
  assign_ranks-IsSorted n (e ∷ es) h =
      (All-assign_ranks e n (suc n) es h.0, assign_ranks-IsSorted (suc n) es h.1)

  module _
      (sort_slice : (LeaderboardEntry F → LeaderboardEntry F → Bool)
        → List (LeaderboardEntry F)
        → List (LeaderboardEntry F))
      (sorting : IsSortSlice sort_slice)
      (asym : (x y : LeaderboardEntry F) → higher_score F x y ≡ true → higher_score F y x ≡ false)
      (negtrans : (x y z : LeaderboardEntry F)
        → higher_score F z y ≡ false
        → higher_score F y x ≡ false
        → higher_score F z x ≡ false) where
    -- Where the scores are ordered (no NaN), the archived leaderboard holds exactly the given
    -- entries, apart from their ranks, numbers them 1, 2, … in order, and no entry stands behind one
    -- with a lower score.
    pub rank_entries_lem :
        (entries : List (LeaderboardEntry F))
        → let ranked = rank_entries F sort_slice entries in
          Perm (map unranked ranked) (map unranked entries)
          × RanksFrom 1 ranked
          × IsSorted (higher_score F) ranked
    unfolding rank_entries
    rank_entries_lem entries =
        let sorted = sort_slice (higher_score F) entries in
        (
          rw (assign_ranks-unranked 1 sorted)
              (Perm.map unranked (sorting.rearranges (higher_score F) entries)),
          assign_ranks-ranks 1 sorted,
          assign_ranks-IsSorted 1 sorted (sorting.sorts (higher_score F) asym negtrans entries),
        )

  list_ids-map :
      (m : Dict (Contest F)) (ids : List String)
      → ((id : String) → get id m ≡ none → listed id ids ≡ 0)
      → (own : (id : String) (c : Contest F) → get id m ≡ some c → c.id ≡ id)
      → (cs : List (Contest F)) × (list_ids F m ids ≡ some cs) × (map (λ c. c.id) cs ≡ ids)
  unfolding list_ids
  list_ids-map m [] h own = ([], refl, refl)
  list_ids-map m (id ∷ ids) h own = elim (Option-cases (get id m)) [
    | inl e ↦ absurd (ground (arith, h id e, eq_iff id id))
    | inr (c, e) ↦
        let (cs, f, g) = list_ids-map m ids (λ j k. omega (arith, h j k)) own in
        (c ∷ cs, ground (arith, e, f), ground (arith, own id c e, g))
  ]

  -- On a legal store `List` never meets a missing contest, and returns the contests in insertion
  -- order: their IDs are exactly the recorded order.
  pub list_contests-order :
      (s : MemoryContestStore F)
      → IsLegal F s
      → (cs : List (Contest F)) × (list_contests F s ≡ some cs) × (map (λ c. c.id) cs ≡ s.order)
  unfolding list_contests
  list_contests-order s v =
      list_ids-map s.contests s.order (λ id e. ground (arith, v.listed_once id, e)) v.own_id
