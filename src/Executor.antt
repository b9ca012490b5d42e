-- ===== src/Executor.antt =====
-- internal/worker/executor.go: SandboxExecutor, over the submission store of
-- internal/submission/service.go. What the sandbox, the validator, the bot fleet, the queue and the
-- contest service answer during one job is `Answers`, given; one reading of the clock stands for all
-- of a job. The store is the DiskStore without I/O errors: a map from IDs, whose `Update` stamps the
-- record and writes it, also under an ID that is not there. Logging, callbacks and telemetry are left
-- out, and a container is only started and stopped.
pub mod Replay
pub mod Perfect
pub mod Scores
pub mod Gate
pub mod Execute
pub mod Confined
pub mod Success
use nexus_bench.Base.{ℕ, String, Bool, Option, none, some, List, ℤ}
use nexus_bench.Base.Dict
use nexus_bench.Base.Dict.{Dict}
use nexus_bench.Base.Float.{FloatOps}
use nexus_bench.Models.{Contest, Submission, SubmissionStatus, DryRunScenarioResult}
use nexus_bench.Fleet.{FleetConfig, OrderResult}
use nexus_bench.Queue.{Job}

-- the outcome of `Validator.Run`
pub data Validation : Type 0 where
  did_not_complete : String → Validation
  completed : Bool → List DryRunScenarioResult → ℕ → Validation

-- the outcome of `jobQueue.Enqueue`, or that there is no queue
pub data EnqueueAnswer : Type 0 where
  no_queue : EnqueueAnswer
  refused : String → EnqueueAnswer
  taken : EnqueueAnswer

-- what `Fleet.Run` collects; its statistics are computed from the results
pub record FleetRun : Type 0 where
  pub results : List OrderResult
  pub started_at : ℕ
  pub finished_at : ℕ

pub data Outcome (A : Type 0) : Type 0 where
  done : A → Outcome A
  fails : String → Outcome A

module _ (F : FloatOps) where
  -- `validation` is none where no validator factory is configured, `active` is none without a
  -- contest querier or an active contest.
  pub record Answers : Type 0 where
    pub now : ℕ
    pub deploy : Outcome (String × ℤ)
    pub wait_healthy : Option String
    pub validation : Option Validation
    pub fleet_override : Option (FleetConfig F)
    pub run_fleet : FleetConfig F → Outcome FleetRun
    pub enqueue : EnqueueAnswer
    pub active : Option (Contest F)
    pub sandbox_host : String

  pub record State : Type 0 where
    pub submissions : Dict (Submission F)
    pub jobs : List Job

  -- `store.Update`
  unfoldable pub update_submission : ℕ → Submission F → State → State
  update_submission now sub s = record s {
    submissions = Dict.put sub.id (record sub { updated_at = now }) s.submissions;
  }

  abbrev pub get_submission : String → State → Option (Submission F)
  get_submission id s = Dict.get id s.submissions

  -- `store.Get`, where a failure leaves the copy at hand
  unfoldable pub reread : State → String → Submission F → Submission F
  reread s id sub = elim (get_submission id s) [ none ↦ sub | some fresh ↦ fresh ]

  -- `markFailed` here and `setStatus` in worker.go
  unfoldable pub set_status : ℕ → Submission F → SubmissionStatus → String → State → State
  set_status now sub status msg =
      update_submission now (record sub { status = status; status_msg = msg })
