-- ===== src/Examples/Contests.antt =====
-- The contest service at a concrete store.
use nexus_bench.Base.{ℕ, ◌≡◌, ◌≢◌, refl, String, true, none, some, List, [], ◌∷◌, arith, eq_iff}
use nexus_bench.Base.Dict.{get, put}
use nexus_bench.Base.Sorting.{sort_stable}
use nexus_bench.Models.{Contest, ContestStatus, LeaderboardEntry, SubmissionStatus, draft, active}
use nexus_bench.Contest.Store.{
  MemoryContestStore, ok, err, no_active_contest, get_active, first_active,
  new_memory_contest_store, save,
}
use nexus_bench.Contest.Defaults.{default_low_profile, default_medium_profile, default_high_profile}
use nexus_bench.Contest.Service.{activated}
use nexus_bench.Contest.Legal.{IsLegal, new_memory_contest_store-IsLegal, save-IsLegal}
use nexus_bench.Contest.Lifecycle.{
  ActivateOutcome, activate_outcome, CloseOutcome, close_outcome, closes_at, step,
}
use nexus_bench.Contest.Evolution.{Evolves, step-Evolves}
use nexus_bench.Contest.Race.{activate_race, run_pair, in_turns, both_start, returned}
use nexus_bench.Examples.Floats.{thousandths}

abbrev Entry : Type 0
Entry = LeaderboardEntry thousandths

abbrev pub a_contest : String → ContestStatus → Contest thousandths
a_contest id status = record {
  id = id;
  name = "Spring";
  status = status;
  low_profile = default_low_profile thousandths;
  medium_profile = default_medium_profile thousandths;
  high_profile = default_high_profile thousandths;
  low_weight = 200;
  medium_weight = 350;
  high_weight = 450;
  submissions_closed_at = none;
  contest_closed_at = none;
  ends_at = none;
  created_at = 1;
  updated_at = 1;
}

abbrev two_drafts : MemoryContestStore thousandths
two_drafts = record {
  contests = ("i", a_contest "i" draft) ∷ ("j", a_contest "j" draft) ∷ [];
  order = "i" ∷ "j" ∷ [];
  snapshots = [];
}

abbrev one_draft : MemoryContestStore thousandths
one_draft = record { contests = ("i", a_contest "i" draft) ∷ []; order = "i" ∷ []; snapshots = [] }

one_draft-IsLegal : IsLegal thousandths one_draft
unfolding save get put new_memory_contest_store
one_draft-IsLegal =
    save-IsLegal thousandths (new_memory_contest_store thousandths) one_draft (a_contest "i" draft)
      refl refl (new_memory_contest_store-IsLegal thousandths)

two_drafts-IsLegal : IsLegal thousandths two_drafts
unfolding save get put
two_drafts-IsLegal =
    save-IsLegal thousandths one_draft two_drafts (a_contest "j" draft) refl refl one_draft-IsLegal

abbrev one_active : MemoryContestStore thousandths
one_active = record {
  contests = ("i", a_contest "i" active) ∷ [];
  order = "i" ∷ [];
  snapshots = [];
}

one_active-IsLegal : IsLegal thousandths one_active
unfolding get
one_active-IsLegal = record {
  own_id = λ id c e. ground (arith, e, eq_iff "i" id);
  one_active = λ i j c d e k a b. ground (arith, e, k, a, b, eq_iff "i" i, eq_iff "i" j);
  listed_once = λ id. ground (arith, eq_iff "i" id);
  stored_once = λ id. ground (arith, eq_iff "i" id);
}

abbrev an_entry : String → ℕ → Entry
an_entry id score = record {
  rank = 0;
  submission_id = id;
  team_name = id;
  language = "go";
  protocol = "fix";
  status = SubmissionStatus.completed;
  composite_score = score;
  low_score = score;
  medium_score = score;
  high_score = score;
  final_score = score;
  best_p99_ms = 0;
  peak_sustained_tps = 0;
  avg_correctness = 0;
  p99_latency_ms = 0;
  max_tps = 0;
  correctness_score = 0;
  completed_at = none;
}

abbrev entries : List Entry
entries = an_entry "x" 300 ∷ an_entry "y" 700 ∷ []

activate_outcome_example : ActivateOutcome thousandths two_drafts 9 "j"
activate_outcome_example = activate_outcome thousandths two_drafts 9 "j" two_drafts-IsLegal

close_outcome_example : CloseOutcome thousandths sort_stable true one_active 9 "i" entries
close_outcome_example =
    close_outcome thousandths sort_stable true one_active 9 "i" entries one_active-IsLegal

step-Evolves_example :
    IsLegal thousandths (step thousandths sort_stable one_active (closes_at true 9 "i" entries))
    × ((j : String)
        → Evolves thousandths (get j one_active.contests) (
            get j
              (step thousandths sort_stable one_active (closes_at true 9 "i" entries)).contests))
step-Evolves_example =
    step-Evolves thousandths sort_stable one_active (closes_at true 9 "i" entries)
      one_active-IsLegal

none_running : get_active thousandths two_drafts ≡ err no_active_contest
unfolding get_active first_active
none_running = refl

ids_differ : (◌≢◌ {A = String}) "i" "j"
ids_differ = λ e. ground (arith, (eq_iff "i" "j").1 e)

found_i : get "i" two_drafts.contests ≡ some (a_contest "i" draft)
unfolding get
found_i = refl

found_j : get "j" two_drafts.contests ≡ some (a_contest "j" draft)
unfolding get
found_j = refl

activate_race_example :
    let p =
      run_pair thousandths 9 (in_turns thousandths) (both_start thousandths two_drafts "i" "j") in
    (p.first ≡ returned (ok (activated thousandths 9 (a_contest "i" draft))))
    × (p.second ≡ returned (ok (activated thousandths 9 (a_contest "j" draft))))
    × (get "i" p.store.contests ≡ some (activated thousandths 9 (a_contest "i" draft)))
    × (get "j" p.store.contests ≡ some (activated thousandths 9 (a_contest "j" draft)))
    × (¬ IsLegal thousandths p.store)
activate_race_example =
    activate_race thousandths 9 two_drafts "i" "j" (a_contest "i" draft) (a_contest "j" draft)
      ids_differ two_drafts-IsLegal none_running found_i found_j refl refl
