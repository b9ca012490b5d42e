-- ===== src/Leaderboard/PerTeam.antt =====
-- `bestByTeam` treats every team by itself, and keeps its best.
use nexus_bench.Base.{
  ◌≤◌, String, Bool, true, false, ◌&&◌, Option, none, some, List, [], ◌∷◌, ◌≡◌, ◌⊎◌, refl, ap, ◌∙◌,
  arith, inl, inr, All, Bool-cases, str_eq, eq_iff, count_if, if◌then◌else◌,
}
use nexus_bench.Base.Dict.{Dict, get, put, keys, get-put, keys-put-le}
use nexus_bench.Base.Float.{FloatOps}
use nexus_bench.Models.{Submission}
use nexus_bench.Leaderboard.{Candidate, best_by_team, candidate, improve, is_better, is_completed}
use nexus_bench.Leaderboard.Order.{IsOrdered, is_better-asym, is_better-negtrans}

module _ (F : FloatOps) where
  -- A completed submission of the team.
  abbrev pub is_candidate : String → Submission F → Bool
  is_candidate team sub = is_completed sub.status && str_eq sub.team_name team

  -- What is left under a team, looking at its completed submissions only.
  unfoldable pub best_for :
      String → Option (Candidate F) → List (Submission F) → Option (Candidate F)
  best_for team best [] = best
  best_for team best (sub ∷ subs) =
      let next = if is_candidate team sub then some (improve F best (candidate F sub)) else best in
      best_for team next subs

  abbrev next_map : Dict (Candidate F) → Submission F → Dict (Candidate F)
  next_map m sub =
      if is_completed sub.status
      then put sub.team_name (improve F (get sub.team_name m) (candidate F sub)) m
      else m

  get-next_map :
      (team : String) (m : Dict (Candidate F)) (sub : Submission F)
      → get team (next_map m sub) ≡ (
          if is_candidate team sub
          then some (improve F (get team m) (candidate F sub))
          else get team m)
  get-next_map team m sub = elim (Bool-cases (is_completed sub.status)) [
    | inr e ↦ rw e refl
    | inl e ↦
        rw (e, get-put sub.team_name team (improve F (get sub.team_name m) (candidate F sub)) m)
          (elim (Bool-cases (str_eq sub.team_name team)) [
            | inr d ↦ rw d refl
            | inl d ↦ rw d (
                ap (λ (t : String). some (improve F (get t m) (candidate F sub)))
                  ((eq_iff sub.team_name team).0 d))
          ])
  ]

  pub get-best_by_team :
      (team : String) (m : Dict (Candidate F)) (subs : List (Submission F))
      → get team (best_by_team F m subs) ≡ best_for team (get team m) subs
  unfolding best_by_team best_for
  get-best_by_team team m [] = refl
  get-best_by_team team m (sub ∷ subs) =
      get-best_by_team team (next_map m sub) subs
      ∙ ap (λ (b : Option (Candidate F)). best_for team b subs) (get-next_map team m sub)

  pub keys-best_by_team :
      (team : String) (m : Dict (Candidate F)) (subs : List (Submission F))
      → keys team m ≤ 1
      → keys team (best_by_team F m subs) ≤ 1
  unfolding best_by_team
  keys-best_by_team team m [] h = h
  keys-best_by_team team m (sub ∷ subs) h =
      keys-best_by_team team (next_map m sub) subs (elim (Bool-cases (is_completed sub.status)) [
        | inl e ↦ rw e (keys-put-le sub.team_name team _ m h)
        | inr e ↦ rw e h
      ])

  abbrev pub NotBeaten : String → Candidate F → List (Submission F) → Type 0
  NotBeaten team c subs =
      All (λ s. is_candidate team s ≡ true → is_better F (candidate F s) c ≡ false) subs

  -- The candidate of one of the submissions.
  abbrev pub ComesFrom : String → Candidate F → List (Submission F) → Type 0
  ComesFrom team c [] = ⊥
  ComesFrom team c (s ∷ ss) =
      ((is_candidate team s ≡ true) × (c ≡ candidate F s)) ⊎ ComesFrom team c ss

  later :
      (team : String) (sub : Submission F) (c d : Candidate F) (subs : List (Submission F))
      → (d ≡ c) ⊎ ComesFrom team d subs
      → (d ≡ c) ⊎ ComesFrom team d (sub ∷ subs)
  later team sub c d subs (inl e) = inl e
  later team sub c d subs (inr f) = inr (inr f)

  taken :
      (team : String) (sub : Submission F) (d : Candidate F) (subs : List (Submission F))
      → is_candidate team sub ≡ true
      → (d ≡ candidate F sub) ⊎ ComesFrom team d subs
      → ComesFrom team d (sub ∷ subs)
  taken team sub d subs h (inl e) = inl (h, e)
  taken team sub d subs h (inr f) = inr f

  module _ (ordered : IsOrdered F) where
    is_better_irrefl : (c : Candidate F) → is_better F c c ≡ false
    is_better_irrefl c = elim (Bool-cases (is_better F c c)) [
      | inl e ↦ is_better-asym F ordered c c e
      | inr e ↦ e
    ]

    abbrev Kept : String → Candidate F → List (Submission F) → Type 0
    Kept team c subs =
        (d : Candidate F) × ((best_for team (some c) subs ≡ some d)
          × ((is_better F c d ≡ false)
              × (NotBeaten team d subs × ((d ≡ c) ⊎ ComesFrom team d subs))))

    best_for-Kept :
        (team : String) (c : Candidate F) (subs : List (Submission F)) → Kept team c subs
    unfolding best_for
    best_for-Kept team c [] = (c, (refl, (is_better_irrefl c, (tt, inl refl))))
    best_for-Kept team c (sub ∷ subs) = elim (Bool-cases (is_candidate team sub)) [
      | inr e ↦
          let (d, (p, (q, (r, s)))) = best_for-Kept team c subs in
          (d, (rw (best_for, e) p, (q, ((λ h. cc, r), later team sub c d subs s))))
      | inl e ↦ elim (Bool-cases (is_better F (candidate F sub) c)) [
        | inl b ↦
            let new = candidate F sub in
            let (d, (p, (q, (r, s)))) = best_for-Kept team new subs in
            let worse = is_better-negtrans F ordered d new c (is_better-asym F ordered new c b) q in
            (d, (rw (best_for, e, b) p, (worse, ((λ h. q, r), inr (taken team sub d subs e s)))))
        | inr b ↦
            let (d, (p, (q, (r, s)))) = best_for-Kept team c subs in
            let worse = is_better-negtrans F ordered d c (candidate F sub) b q in
            (d, (rw (best_for, e, b) p, (q, ((λ h. worse, r), later team sub c d subs s))))
      ]
    ]

    -- The team has a best entry, or no completed submission.
    abbrev pub Best : String → List (Submission F) → Type 0
    Best team subs =
        ((d : Candidate F) × ((best_for team none subs ≡ some d)
            × (NotBeaten team d subs × ComesFrom team d subs)))
        ⊎ ((best_for team none subs ≡ none) × (count_if (is_candidate team) subs ≡ 0))

    pub best_for_lem : (team : String) (subs : List (Submission F)) → Best team subs
    unfolding best_for
    best_for_lem team [] = inr (refl, refl)
    best_for_lem team (sub ∷ subs) = elim (Bool-cases (is_candidate team sub)) [
      | inl e ↦
          let (d, (p, (q, (r, s)))) = best_for-Kept team (candidate F sub) subs in
          inl (d, (rw (best_for, e) p, ((λ h. q, r), taken team sub d subs e s)))
      | inr e ↦ elim (best_for_lem team subs) [
        | inl (d, (p, (r, s))) ↦ inl (d, (rw (best_for, e) p, ((λ h. absurd (cc), r), inr s)))
        | inr (p, n) ↦ inr (rw (best_for, e) p, rw e (omega arith))
      ]
    ]
