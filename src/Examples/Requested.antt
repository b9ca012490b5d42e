-- ===== src/Examples/Requested.antt =====
-- Validation requests for one submission: allowed, refused by the rate limit, and allowed again.
use nexus_bench.Base.{
  ℕ, ◌-◌, leb, ◌*◌, ◌≡◌, refl, true, false, none, some, List, [], ◌∷◌, pos, arith,
}
use nexus_bench.Base.Dict.{get, put, remove}
use nexus_bench.Contest.Defaults.{second}
use nexus_bench.Models.{Submission, running}
use nexus_bench.Validator.Run.{complete}
use nexus_bench.Api.{
  ValidateCall, ValidationRateLimiter, allow, new_validation_rate_limiter, retry_after, revoke,
  validate,
}
use nexus_bench.Api.Spaced.{Spaced, runs_of, runs_of-Spaced}
use nexus_bench.Api.Race.{allow_race, both_load}
use nexus_bench.Examples.Floats.{thousandths}

abbrev live : Submission thousandths
live = record {
  id = "s";
  team_name = "red";
  language = "go";
  protocol = "rest";
  status = running;
  status_msg = "";
  contest_id = "c";
  archive_path = "";
  archive_size = pos 0;
  container_id = "";
  container_name = "";
  exposed_port = pos 8080;
  created_at = 1;
  updated_at = 1;
  completed_at = none;
  results = none;
  all_results = [];
  final_score = 0;
  dry_run_result = none;
}

abbrev call_at : ℕ → ValidateCall thousandths
call_at t = record {
  now = t * second;
  id = "s";
  submission = some live;
  answer =
      complete
        (record { submission_id = "s"; scenarios = []; all_passed = true; tested_at = t * second });
  client_gone = false;
}

abbrev limiter : ValidationRateLimiter
limiter = new_validation_rate_limiter (120 * second)

abbrev calls : List (ValidateCall thousandths)
calls = call_at 10 ∷ call_at 100 ∷ call_at 130 ∷ []

run_times : runs_of thousandths "s" limiter calls ≡ 10 * second ∷ 130 * second ∷ []
unfolding runs_of validate allow retry_after revoke get put remove
run_times = refl

runs_of-Spaced_example : Spaced (120 * second) (runs_of thousandths "s" limiter calls)
unfolding get
runs_of-Spaced_example =
    runs_of-Spaced thousandths "s" limiter calls 0 refl
      (omega arith, (omega arith, (omega arith, tt)))

abbrev seen_at_10 : ValidationRateLimiter
seen_at_10 = record limiter { last_allowed = ("s", 10 * second) ∷ [] }

allow_race_example :
    (both_load seen_at_10 "s" (130 * second) (131 * second) ≡ (true, true))
    × ((allow (allow seen_at_10 (130 * second) "s").0 (131 * second) "s").1
        ≡ leb (120 * second) (131 * second - 130 * second))
unfolding get
allow_race_example =
    allow_race seen_at_10 "s" (10 * second) (130 * second) (131 * second) refl refl refl
