-- ===== src/Models.antt =====
-- internal/models/models.go: the data that the components share. A `time.Time` is a number of
-- nanoseconds, a `*time.Time` an Option, an int64 or int that may be negative an integer.
use nexus_bench.Base.{
  ℕ, String, Bool, true, false, Option, none, some, List, [], ◌∷◌, ℤ, str_eq, if◌then◌else◌,
}
use nexus_bench.Base.Float.{FloatOps}

pub data SubmissionStatus : Type 0 where
  pending building deploying running benchmarking completed failed : SubmissionStatus

abbrev pub is_terminal : SubmissionStatus → Bool
is_terminal completed = true
is_terminal failed = true
is_terminal pending = false
is_terminal building = false
is_terminal deploying = false
is_terminal running = false
is_terminal benchmarking = false

pub data ContestStatus : Type 0 where
  draft active closed : ContestStatus

pub record DryRunScenarioResult : Type 0 where
  pub name : String
  pub passed : Bool
  pub reason : String

pub record DryRunResult : Type 0 where
  pub all_passed : Bool
  pub scenarios : List DryRunScenarioResult
  pub ran_at : ℕ
  pub fail_summary : String

module _ (F : FloatOps) where
  open F use {Float}

  pub record VolatilityProfile : Type 0 where
    pub label : String
    pub bot_count : ℤ
    pub test_duration : ℤ
    pub market_data_path : String
    pub limit_ratio : Float
    pub market_ratio : Float
    pub cancel_ratio : Float
    pub price_spread_cents : ℤ
    pub max_quantity : ℤ
    pub target_p99_ns : ℤ
    pub target_sustain_tps : Float
    pub latency_weight : Float
    pub throughput_weight : Float
    pub correctness_weight : Float

  pub record Contest : Type 0 where
    pub id : String
    pub name : String
    pub status : ContestStatus
    pub low_profile : VolatilityProfile
    pub medium_profile : VolatilityProfile
    pub high_profile : VolatilityProfile
    pub low_weight : Float
    pub medium_weight : Float
    pub high_weight : Float
    pub submissions_closed_at : Option ℕ
    pub contest_closed_at : Option ℕ
    pub ends_at : Option ℕ
    pub created_at : ℕ
    pub updated_at : ℕ

  pub profile_by_label : Contest → String → Option VolatilityProfile
  profile_by_label c label =
      if str_eq label "low"
      then some c.low_profile
      else if str_eq label "medium"
      then some c.medium_profile
      else if str_eq label "high"
      then some c.high_profile
      else none

  pub record BenchmarkResults : Type 0 where
    pub volatility_label : String
    pub p50_latency_ms : Float
    pub p90_latency_ms : Float
    pub p99_latency_ms : Float
    pub max_tps : Float
    pub sustained_tps : Float
    pub correctness_score : Float
    pub total_orders : ℕ
    pub correct_fills : ℕ
    pub incorrect_fills : ℕ
    pub run_score : Float
    pub composite_score : Float
    pub benchmark_duration : String
    pub completed_at : ℕ

  pub record Submission : Type 0 where
    pub id : String
    pub team_name : String
    pub language : String
    pub protocol : String
    pub status : SubmissionStatus
    pub status_msg : String
    pub contest_id : String
    pub archive_path : String
    pub archive_size : ℤ
    pub container_id : String
    pub container_name : String
    pub exposed_port : ℤ
    pub created_at : ℕ
    pub updated_at : ℕ
    pub completed_at : Option ℕ
    pub results : Option BenchmarkResults
    pub all_results : List BenchmarkResults
    pub final_score : Float
    pub dry_run_result : Option DryRunResult

  first_labelled : List BenchmarkResults → String → Option BenchmarkResults
  first_labelled [] label = none
  first_labelled (r ∷ rs) label =
      if str_eq r.volatility_label label then some r else first_labelled rs label

  pub result_by_label : Submission → String → Option BenchmarkResults
  unfolding first_labelled
  result_by_label s label = first_labelled s.all_results label

  pub record LeaderboardEntry : Type 0 where
    pub rank : ℕ
    pub submission_id : String
    pub team_name : String
    pub language : String
    pub protocol : String
    pub status : SubmissionStatus
    pub composite_score : Float
    pub low_score : Float
    pub medium_score : Float
    pub high_score : Float
    pub final_score : Float
    pub best_p99_ms : Float
    pub peak_sustained_tps : Float
    pub avg_correctness : Float
    pub p99_latency_ms : Float
    pub max_tps : Float
    pub correctness_score : Float
    pub completed_at : Option ℕ
