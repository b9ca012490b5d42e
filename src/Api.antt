-- ===== src/Api.antt =====
-- internal/api/router.go, apart from the leaderboard: the manual validation endpoint with its rate
-- limiter, the team history, the admin key, and the contest endpoints. A handler is a function of what
-- the request carries; routing, JSON and the logging are not modelled.
pub mod Spaced
pub mod Race
use nexus_bench.Base.{
  ℕ, ◌+◌, ◌-◌, ◌/◌, String, Bool, true, false, not, Option, none, some, List, [], ◌∷◌, ◌++◌, ℤ,
  is_positive, leb, ltb, str_eq, if◌then◌else◌, keep_if,
}
use nexus_bench.Base.Dict
use nexus_bench.Base.Dict.{Dict, get, put, remove}
use nexus_bench.Base.Float.{FloatOps}
use nexus_bench.Base.Strings.{str_append}
use nexus_bench.Models.{LeaderboardEntry, Submission, SubmissionStatus, running}
use nexus_bench.Contest.Defaults.{second}
use nexus_bench.Contest.Store.{
  ContestError, MemoryContestStore, Result, ok, err, not_found, duplicate_contest, already_active,
  wrong_status, no_active_contest, name_required, profiles_required,
}
use nexus_bench.Contest.Service.{CloseResult, CreateContestRequest, activate, close, create}
use nexus_bench.Leaderboard.{Candidate, build_deduped_leaderboard}
use nexus_bench.Validator.Run.{RunAnswer, ValidationResult, complete, crashed, incomplete}

-- `validationRateLimiter`: when a submission was last allowed; times are in nanoseconds
pub record ValidationRateLimiter : Type 0 where
  pub last_allowed : Dict ℕ
  pub window : ℕ

abbrev pub new_validation_rate_limiter : ℕ → ValidationRateLimiter
new_validation_rate_limiter window = record { last_allowed = []; window = window }

-- `allow` calls the `sync.Map` twice, under no mutex, so another request may come between: this is
-- `LoadOrStore`, with the time that was there, ...
abbrev pub load_or_store : ValidationRateLimiter → ℕ → String → ValidationRateLimiter × Option ℕ
load_or_store l now id = elim (get id l.last_allowed) [
  | none ↦ (record l { last_allowed = put id now l.last_allowed }, none)
  | some last ↦ (l, some last)
]

-- ... and this what follows it, with the `Store`.
abbrev pub store_if_due :
    ValidationRateLimiter → ℕ → String → Option ℕ → ValidationRateLimiter × Bool
store_if_due l now id none = (l, true)
store_if_due l now id (some last) =
    if leb l.window (now - last)
    then (record l { last_allowed = put id now l.last_allowed }, true)
    else (l, false)

-- the call of a request that no other comes between
unfoldable pub allow : ValidationRateLimiter → ℕ → String → ValidationRateLimiter × Bool
allow l now id = let (l', loaded) = load_or_store l now id in store_if_due l' now id loaded

unfoldable pub retry_after : ValidationRateLimiter → ℕ → String → ℕ
retry_after l now id = elim (get id l.last_allowed) [
  | none ↦ 0
  | some last ↦ l.window - (now - last)
]

unfoldable pub revoke : ValidationRateLimiter → String → ValidationRateLimiter
revoke l id = record l { last_allowed = Dict.remove id l.last_allowed }

-- The answers of the validation endpoint. `no_answer` is a panic of the validator.
pub data ValidateReply : Type 0 where
  submission_missing : ValidateReply
  too_many_requests : ℕ → ValidateReply
  status_wrong : ValidateReply
  container_not_ready : ValidateReply
  validation_canceled : ValidateReply
  validation_error : String → ValidateReply
  validated : ValidationResult → ValidateReply
  no_answer : ValidateReply

abbrev is_running : SubmissionStatus → Bool
is_running running = true
is_running _ = false

-- the answer to a run, which the request's context may have ended
abbrev pub run_reply : RunAnswer → Bool → ValidateReply
run_reply (complete result) client_gone = validated result
run_reply (incomplete result e) client_gone =
    if client_gone then validation_canceled else validation_error e
run_reply crashed client_gone = no_answer

module _ (F : FloatOps) where
  -- What one request meets: the time, the stored submission, and what a run would answer.
  pub record ValidateCall : Type 0 where
    pub now : ℕ
    pub id : String
    pub submission : Option (Submission F)
    pub answer : RunAnswer
    pub client_gone : Bool

  -- behind the rate limit: the limiter, the reply, and whether the validator ran
  abbrev pub validate_allowed :
      ValidationRateLimiter
      → ValidateCall
      → Submission F
      → ValidationRateLimiter × (ValidateReply × Bool)
  validate_allowed l c sub =
      if not (is_running sub.status)
      then (revoke l c.id, (status_wrong, false))
      else if not (is_positive sub.exposed_port)
      then (revoke l c.id, (container_not_ready, false))
      else (l, (run_reply c.answer c.client_gone, true))

  unfoldable pub validate :
      ValidationRateLimiter → ValidateCall → ValidationRateLimiter × (ValidateReply × Bool)
  validate l c = elim c.submission [
    | none ↦ (l, (submission_missing, false))
    | some sub ↦
        if (allow l c.now c.id).1
        then validate_allowed (allow l c.now c.id).0 c sub
        else (l, (too_many_requests (retry_after l c.now c.id / second + 1), false))
  ]

  -- `teamHistory` behind the check of the name
  abbrev pub team_history : List (Submission F) → String → List (Submission F)
  team_history all name = keep_if (λ s. str_eq s.team_name name) all

-- `adminAuthMiddleware`: does the request pass, by its Authorization header? A header has the prefix and
-- the key exactly if it is their concatenation.
abbrev pub admin_passes : String → String → Bool
admin_passes api_key auth = str_eq auth (str_append "Bearer " api_key)

-- the HTTP status of `classifyError` for an error of the contest service
abbrev pub classify_contest_error : ContestError → ℕ
classify_contest_error not_found = 404
classify_contest_error already_active = 409
classify_contest_error wrong_status = 409
classify_contest_error no_active_contest = 409
classify_contest_error name_required = 400
classify_contest_error profiles_required = 400
classify_contest_error duplicate_contest = 500
