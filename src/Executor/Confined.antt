-- ===== src/Executor/Confined.antt =====
-- `Execute` of internal/worker/executor.go writes no submission but the job's own.
use nexus_bench.Base.{
  ℕ, ◌≡◌, ◌≢◌, ◌⊎◌, refl, ◌∙◌, String, true, false, Option, none, some, List, [], ◌∷◌, ◌++◌, ℤ,
  arith, str_eq, eq_iff, if◌then◌else◌, inl, inr, Bool-cases, Option-cases,
}
use nexus_bench.Base.Dict.{get, get-put}
use nexus_bench.Base.Float.{FloatOps}
use nexus_bench.Base.Text.{TextOps}
use nexus_bench.Models.{
  BenchmarkResults, Submission, SubmissionStatus, VolatilityProfile, benchmarking,
}
use nexus_bench.Queue.{Job}
use nexus_bench.Executor.{
  Answers, EnqueueAnswer, FleetRun, Outcome, State, Validation, completed, did_not_complete, done,
  fails, no_queue, refused, reread, set_status, taken, update_submission,
}
use nexus_bench.Executor.Gate.{judge_validation, run_preflight_validator}
use nexus_bench.Executor.Execute.{
  append_profile_result, enqueue_next_profile, compute_and_write_final_score, persist_results,
  fleet_finished, benchmark, on_container, execute, then_done,
}

pub profiles-cases :
    (ls : List String) → (ls ≡ []) ⊎ ((l : String) × (rest : List String) × (ls ≡ l ∷ rest))
profiles-cases [] = inl refl
profiles-cases (l ∷ ls) = inr (l, ls, refl)

pub deploy-cases :
    (d : Outcome (String × ℤ))
    → ((id : String) × (port : ℤ) × (d ≡ done (id, port))) ⊎ ((err : String) × (d ≡ fails err))
deploy-cases (done (id, port)) = inl (id, port, refl)
deploy-cases (fails err) = inr (err, refl)

module _ (F : FloatOps) where
  pub get-update_submission :
      (now : ℕ) (sub : Submission F) (s : State F) (id : String)
      → get id (update_submission F now sub s).submissions ≡ (
          if str_eq sub.id id then some (record sub { updated_at = now }) else get id s.submissions)
  unfolding update_submission
  get-update_submission now sub s id =
      get-put sub.id id (record sub { updated_at = now }) s.submissions

  -- The submission `k` is stored under its own ID.
  abbrev pub Holds : String → State F → Type 0
  Holds k s = (x : Submission F) × (get k s.submissions ≡ some x) × (x.id ≡ k)

  -- From one state to another only the submission `k` may change.
  pub record Within (k : String) (s s' : State F) : Type 0 where
    pub others : (id : String) → id ≢ k → get id s'.submissions ≡ get id s.submissions
    pub holds : Holds k s'

  pub Within-refl : (k : String) (s : State F) → Holds k s → Within k s s
  Within-refl k s h = record { others = λ id n. refl; holds = h }

  pub Within-trans : (k : String) (s t u : State F) → Within k s t → Within k t u → Within k s u
  Within-trans k s t u a b = record {
    others = λ id n. b.others id n ∙ a.others id n;
    holds = b.holds;
  }

  pub Within-update :
      (k : String) (now : ℕ) (sub : Submission F) (s : State F)
      → sub.id ≡ k
      → Within k s (update_submission F now sub s)
  Within-update k now sub s e = record {
    others = λ id n. ground (arith, e, n, eq_iff sub.id id, get-update_submission now sub s id);
    holds = (
      record sub { updated_at = now },
      ground (arith, e, eq_iff sub.id k, get-update_submission now sub s k),
      e,
    );
  }

  pub Within-set_status :
      (k : String) (now : ℕ) (sub : Submission F) (status : SubmissionStatus) (msg : String)
      (s : State F)
      → sub.id ≡ k
      → Within k s (set_status F now sub status msg s)
  unfolding set_status
  Within-set_status k now sub status msg s e =
      Within-update k now (record sub { status = status; status_msg = msg }) s e

  pub reread-id :
      (k id : String) (s : State F) (sub : Submission F)
      → id ≡ k
      → Holds k s
      → (reread F s id sub).id ≡ k
  unfolding reread
  reread-id k id s sub e (x, f, g) = ground (arith, e, f, g)

  -- Two writes in a row.
  Within-set_status-update :
      (k : String) (now : ℕ) (sub : Submission F) (status : SubmissionStatus) (msg : String)
      (s : State F)
      → sub.id ≡ k
      → Within k s (set_status F now sub status msg (update_submission F now sub s))
  Within-set_status-update k now sub status msg s e =
      Within-trans k s (update_submission F now sub s) _ (Within-update k now sub s e)
        (Within-set_status k now sub status msg (update_submission F now sub s) e)

  abbrev GoesOn : String → State F → State F × Outcome (Submission F) → Type 0
  GoesOn k s (s', done sub) = Within k s s' × (sub.id ≡ k)
  GoesOn k s (s', fails err) = Within k s s'

  module _ (T : TextOps) (of_ℤ : ℤ → F.Float) (k : String) where
    judge_validation-GoesOn :
        (now : ℕ) (s : State F) (sub : Submission F) (v : Validation)
        → sub.id ≡ k
        → Holds k s
        → GoesOn k s (judge_validation F T now s sub v)
    unfolding judge_validation
    judge_validation-GoesOn now s sub (did_not_complete err) e h =
        Within-set_status-update k now _ _ _ s (reread-id k sub.id s sub e h)
    judge_validation-GoesOn now s sub (completed true scenarios at) e h =
        (Within-update k now _ s (reread-id k sub.id s sub e h), reread-id k sub.id s sub e h)
    judge_validation-GoesOn now s sub (completed false scenarios at) e h =
        Within-set_status-update k now _ _ _ s (reread-id k sub.id s sub e h)

    run_preflight-GoesOn :
        (now : ℕ) (v : Option Validation) (s : State F) (sub : Submission F) (j : Job)
        → sub.id ≡ k
        → Holds k s
        → GoesOn k s (run_preflight_validator F T now v s sub j)
    run_preflight-GoesOn now none s sub j e h = (Within-refl k s h, e)
    run_preflight-GoesOn now (some v) s sub j e h =
        elim (Bool-cases (str_eq j.volatility_label "low")) [
          | inl a ↦ rw a (judge_validation-GoesOn now s sub v e h)
          | inr a ↦ rw a (Within-refl k s h, e)
        ]

    enqueue-Within :
        (a : Answers F) (s : State F) (sub : Submission F) (j : Job) (next : String)
        (rest : List String) (results : BenchmarkResults F)
        → sub.id ≡ k
        → Holds k s
        → Within k s
            (then_done F T of_ℤ (enqueue_next_profile F T of_ℤ a s sub j next rest) results).0
    unfolding enqueue_next_profile
    enqueue-Within a s sub j next rest results e h = go a.enqueue refl
      where
        go :
            (x : EnqueueAnswer)
            → a.enqueue ≡ x
            → Within k s
                (then_done F T of_ℤ (enqueue_next_profile F T of_ℤ a s sub j next rest) results).0
        go no_queue f = rw f (Within-set_status k a.now sub _ _ s e)
        go (refused err) f = rw f (Within-set_status k a.now sub _ _ s e)
        go taken f = rw f (record { others = λ id n. refl; holds = h })

    final_score-Within :
        (a : Answers F) (s : State F) (sub : Submission F)
        → sub.id ≡ k
        → Holds k s
        → Within k s (compute_and_write_final_score F T of_ℤ a s sub)
    unfolding compute_and_write_final_score
    final_score-Within a s sub e (x, f, g) =
        let found : get sub.id s.submissions ≡ some x = rw e f in
        rw (compute_and_write_final_score, found) (Within-update k a.now _ s g)

    GoesOn-later :
        (s t : State F) (gate : State F × Outcome (Submission F))
        → Within k s t
        → GoesOn k t gate
        → GoesOn k s gate
    GoesOn-later s t (u, done sub) w (v, e) = (Within-trans k s t u w v, e)
    GoesOn-later s t (u, fails err) w v = Within-trans k s t u w v

    persist_results-Within :
        (a : Answers F) (s : State F) (sub : Submission F) (j : Job) (results : BenchmarkResults F)
        → sub.id ≡ k
        → Holds k s
        → Within k s (persist_results F T of_ℤ a s sub j results).0
    unfolding append_profile_result
    persist_results-Within a s sub j results e h =
        let old = reread F s sub.id sub in
        let fresh = record old { all_results = old.all_results ++ results ∷ [] } in
        let same : fresh.id ≡ k = reread-id k sub.id s sub e h in
        let s' = update_submission F a.now fresh s in
        let first : Within k s s' = Within-update k a.now fresh s same in
        elim (Bool-cases (str_eq j.volatility_label "")) [
          | inl b ↦ rw b (Within-refl k s h)
          | inr b ↦ elim (profiles-cases j.remaining_profiles) [
            | inl c ↦
                rw (b, c)
                  (Within-trans k s s' _ first (final_score-Within a s' fresh same first.holds))
            | inr (next, rest, c) ↦
                rw (b, c)
                  (Within-trans k s s' _ first
                    (enqueue-Within a s' fresh j next rest results same first.holds))
          ]
        ]

    fleet_finished-Within :
        (a : Answers F) (s : State F) (sub : Submission F) (j : Job) (p : VolatilityProfile F)
        (run : Outcome FleetRun)
        → sub.id ≡ k
        → Holds k s
        → Within k s (fleet_finished F T of_ℤ a s sub j p run).0
    fleet_finished-Within a s sub j p (fails err) e h = Within-refl k s h
    fleet_finished-Within a s sub j p (done run) e h = persist_results-Within a s sub j _ e h

    benchmark-Within :
        (a : Answers F) (url : String) (j : Job) (s : State F)
        (gate : State F × Outcome (Submission F))
        → GoesOn k s gate
        → Within k s (benchmark F T of_ℤ a url j gate).0
    unfolding benchmark
    benchmark-Within a url j s (s', fails err) g = g
    benchmark-Within a url j s (s', done sub) (w, e) =
        let marked : Submission F = record sub {
          status = benchmarking;
          status_msg = "bot fleet running";
        } in
        let step = Within-update k a.now marked s' e in
        Within-trans k s s' _ w (
          Within-trans k s' (update_submission F a.now marked s') _ step (
            fleet_finished-Within a (update_submission F a.now marked s') marked j _ _ e
              step.holds))

    on_container-Within :
        (a : Answers F) (s : State F) (sub : Submission F) (j : Job) (port : ℤ)
        → sub.id ≡ k
        → Within k s (on_container F T of_ℤ a s sub j port).0
    unfolding on_container benchmark compute_and_write_final_score enqueue_next_profile
    on_container-Within a s sub j port e =
        let s' = update_submission F a.now sub s in
        let step = Within-update k a.now sub s e in
        elim (Option-cases a.wait_healthy) [
          | inl c ↦ rw c (
              benchmark-Within a _ j s _ (
                GoesOn-later s s' _ step
                  (run_preflight-GoesOn a.now a.validation s' sub j e step.holds)))
          | inr (err, c) ↦ rw c step
        ]

    -- Whatever the outside world answers: where the store holds the job's submission under its own
    -- ID, an execution changes no other submission, and that one stays in the store under its ID.
    pub execute-Within :
        (a : Answers F) (s : State F) (j : Job)
        → j.submission_id ≡ k
        → Holds k s
        → Within k s (execute F T of_ℤ a s j).0
    unfolding execute
    execute-Within a s j e (x, f, g) =
        let found : get j.submission_id s.submissions ≡ some x = rw e f in
        elim (deploy-cases a.deploy) [
          | inl (id, port, c) ↦ rw (execute, found, c) (on_container-Within a s _ j port g)
          | inr (err, c) ↦ rw (execute, found, c) (Within-refl k s (x, f, g))
        ]
