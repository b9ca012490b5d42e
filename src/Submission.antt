-- ===== src/Submission.antt =====
-- internal/submission/service.go: `Ingest` with its guard, `StopContainer` and the DiskStore's `List`,
-- over the state of Executor. The contest service, the archive on disk, Docker and the queue answer
-- once in a call, by its arguments; `deployAsync` is a goroutine of the local mode and not modelled.
-- What reads the list of submissions only searches it, so the order that `sort.Slice` gives to
-- submissions of one instant does not matter, and a stable sort stands for it.
pub mod Exclusive
pub mod Race
use nexus_bench.Base.{
  ℕ, String, Bool, true, false, ◌&&◌, ◌||◌, not, Option, none, some, List, [], ◌∷◌, ◌++◌, ℤ, pos,
  ltb, str_eq, if◌then◌else◌,
}
use nexus_bench.Base.Dict.{Dict}
use nexus_bench.Base.Float.{FloatOps}
use nexus_bench.Base.Sorting.{sort_stable}
use nexus_bench.Base.Text.{TextOps, text}
use nexus_bench.Models.{Contest, Submission, pending, completed, failed, is_terminal}
use nexus_bench.Queue.{Job, new_job, new_profile_job}
use nexus_bench.Executor.{
  EnqueueAnswer, State, get_submission, no_queue, refused, set_status, taken, update_submission,
}

pub data SubmissionError : Type 0 where
  unsupported_language unsupported_protocol team_name_required : SubmissionError
  contest_not_active submission_in_progress : SubmissionError
  archive_not_stored enqueue_failed submission_not_found no_container stop_failed : SubmissionError

pub record SubmitRequest : Type 0 where
  pub team_name : String
  pub language : String
  pub protocol : String

-- `validateLanguage(l) == nil`; each of these languages has an image in the configuration
abbrev pub language_known : String → Bool
language_known l =
    str_eq l "go"
    || (str_eq l "rust" || (str_eq l "cpp" || (str_eq l "python" || str_eq l "binary")))

abbrev pub protocol_supported : String → Bool
protocol_supported p = str_eq p "rest" || (str_eq p "websocket" || str_eq p "fix")

-- the contest service's answer to `GetActive`, or that none is wired in
pub data ActiveAnswer (F : FloatOps) : Type 0 where
  no_getter : ActiveAnswer F
  no_active : ActiveAnswer F
  active_contest : Contest F → ActiveAnswer F

pub data Checked : Type 0 where
  admitted : String → Checked
  denied : SubmissionError → Checked

module _ (F : FloatOps) where
  unfoldable pub stored_submissions : Dict (Submission F) → List (Submission F)
  stored_submissions [] = []
  stored_submissions ((id, sub) ∷ m) = sub ∷ stored_submissions m

  -- `List`: the newest first
  unfoldable pub list_submissions : State F → List (Submission F)
  list_submissions s =
      sort_stable (λ a b. ltb b.created_at a.created_at) (stored_submissions s.submissions)

  abbrev pub blocks : String → String → Submission F → Bool
  blocks team_name contest_id sub =
      str_eq sub.team_name team_name
      && (str_eq sub.contest_id contest_id && not (is_terminal sub.status))

  -- the loop of `checkNoActiveSubmission`
  unfoldable pub in_progress : String → String → List (Submission F) → Bool
  in_progress team_name contest_id [] = false
  in_progress team_name contest_id (sub ∷ subs) =
      if blocks team_name contest_id sub then true else in_progress team_name contest_id subs

  abbrev pub is_after : ℕ → Option ℕ → Bool
  is_after now none = false
  is_after now (some t) = ltb t now

  -- the contest guard: the contest's ID, empty without a contest service
  unfoldable pub check_contest : ℕ → State F → String → ActiveAnswer F → Checked
  check_contest now s team_name no_getter = admitted ""
  check_contest now s team_name no_active = denied contest_not_active
  check_contest now s team_name (active_contest c) =
      if is_after now c.submissions_closed_at
      then denied contest_not_active
      else if in_progress team_name c.id (list_submissions s)
      then denied submission_in_progress
      else admitted c.id

  abbrev pub new_submission : ℕ → String → SubmitRequest → ℤ → String → String → Submission F
  new_submission now id req size contest_id archive_path = record {
    id = id;
    team_name = req.team_name;
    language = req.language;
    protocol = req.protocol;
    status = pending;
    status_msg = "";
    contest_id = contest_id;
    archive_path = archive_path;
    archive_size = size;
    container_id = "";
    container_name = "";
    exposed_port = pos 0;
    created_at = now;
    updated_at = now;
    completed_at = none;
    results = none;
    all_results = [];
    final_score = F.of_ℕ 0;
    dry_run_result = none;
  }

  -- what `Ingest` returns
  pub data IngestResult : Type 0 where
    ingested : Submission F → IngestResult
    rejected : SubmissionError → IngestResult

  abbrev pub first_job : ℕ → Submission F → Job
  first_job now sub =
      if str_eq sub.contest_id ""
      then new_job F now sub
      else new_profile_job F now sub sub.contest_id "low" ("medium" ∷ "high" ∷ [])

  module _ (T : TextOps) where
    -- the dispatch; without a queue the container is started in the background
    unfoldable pub dispatch : ℕ → State F → Submission F → EnqueueAnswer → State F × IngestResult
    dispatch now s sub no_queue = (s, ingested sub)
    dispatch now s sub (refused err) = (
      set_status F now sub failed (T.sprintf "enqueue error: %v" (text err ∷ [])) s,
      rejected enqueue_failed,
    )
    dispatch now s sub taken = (record s { jobs = s.jobs ++ first_job now sub ∷ [] }, ingested sub)

    -- the part behind the guards; `archive` is the path that was written. `Save` writes what
    -- `Update` would, since the record is stamped with the same clock.
    abbrev pub admit :
        ℕ
        → State F
        → String
        → SubmitRequest
        → ℤ
        → Option String
        → EnqueueAnswer
        → Checked
        → State F × IngestResult
    admit now s id req size archive answer (denied e) = (s, rejected e)
    admit now s id req size none answer (admitted contest_id) = (s, rejected archive_not_stored)
    admit now s id req size (some path) answer (admitted contest_id) =
        let sub = new_submission now id req size contest_id path in
        dispatch now (update_submission F now sub s) sub answer

    unfoldable pub ingest :
        ℕ
        → State F
        → String
        → SubmitRequest
        → ℤ
        → ActiveAnswer F
        → Option String
        → EnqueueAnswer
        → State F × IngestResult
    ingest now s id req size contest archive answer =
        if not (language_known req.language)
        then (s, rejected unsupported_language)
        else if not (protocol_supported req.protocol)
        then (s, rejected unsupported_protocol)
        else if str_eq req.team_name ""
        then (s, rejected team_name_required)
        else admit now s id req size archive answer (check_contest now s req.team_name contest)

    -- `stopped` is whether Docker stopped the container; the error, if there is one
    unfoldable pub stop_container : ℕ → State F → String → Bool → State F × Option SubmissionError
    stop_container now s id stopped = elim (get_submission F id s) [
      | none ↦ (s, some submission_not_found)
      | some sub ↦
          if str_eq sub.container_id ""
          then (s, some no_container)
          else if stopped
          then (set_status F now sub completed "manually stopped" s, none)
          else (s, some stop_failed)
    ]
