-- ===== src/Submission/Exclusive.antt =====
-- The guard of internal/submission/service.go: one submission in progress per team and contest.
use nexus_bench.Base.{
  ℕ, ◌≡◌, ◌≢◌, ◌<◌, refl, ◌∙◌, sym, String, Bool, true, false, Option, none, some, List, [], ◌∷◌, ℤ,
  arith, str_eq, eq_iff, if◌then◌else◌, inl, inr, Bool-cases, Option-cases, count_if, ltb,
}
use nexus_bench.Base.Dict.{Dict, get}
use nexus_bench.Base.Float.{FloatOps}
use nexus_bench.Base.Sorting.{sum_of-sort_stable}
use nexus_bench.Base.Text.{TextOps}
use nexus_bench.Models.{Submission, SubmissionStatus, failed, completed, is_terminal}
use nexus_bench.Executor.{
  EnqueueAnswer, State, no_queue, refused, set_status, taken, update_submission,
}
use nexus_bench.Executor.Confined.{get-update_submission}
use nexus_bench.Submission.{
  ActiveAnswer, Checked, SubmitRequest, active_contest, admit, admitted, blocks, check_contest,
  denied, dispatch, in_progress, ingest, list_submissions, no_active, no_getter, new_submission,
  stored_submissions, language_known, protocol_supported, stop_container,
}

module _ (F : FloatOps) where
  in_progress-count :
      (team contest : String) (subs : List (Submission F))
      → in_progress F team contest subs ≡ false
      → count_if (blocks F team contest) subs ≡ 0
  unfolding in_progress
  in_progress-count team contest [] h = refl
  in_progress-count team contest (x ∷ subs) h = ground (arith, in_progress-count team contest subs)

  stored-count :
      (p : Submission F → Bool) (id : String) (x : Submission F) (m : Dict (Submission F))
      → get id m ≡ some x
      → p x ≡ true
      → 0 < count_if p (stored_submissions F m)
  unfolding get stored_submissions
  stored-count p id x [] e h = cc
  stored-count p id x ((j, y) ∷ m) e h = ground (arith, stored-count p id x m)

  -- Where the guard passes, no stored submission of the team is in progress in the contest.
  guard-none :
      (team contest : String) (s : State F) (id : String) (x : Submission F)
      → in_progress F team contest (list_submissions F s) ≡ false
      → get id s.submissions ≡ some x
      → blocks F team contest x ≡ false
  unfolding list_submissions
  guard-none team contest s id x h e = elim (Bool-cases (blocks F team contest x)) [
    | inr b ↦ b
    | inl b ↦ absurd (
        omega (
          arith,
          in_progress-count team contest (list_submissions F s) h,
          stored-count (blocks F team contest) id x s.submissions e b,
          sum_of-sort_stable (λ (a b : Submission F). ltb b.created_at a.created_at)
              (λ x. if blocks F team contest x then 1 else 0) (stored_submissions F s.submissions),
        ))
  ]

  -- In a contest no team has two submissions in progress.
  abbrev pub IsExclusive : State F → Type 0
  IsExclusive s =
      (i j : String) (x y : Submission F)
      → get i s.submissions ≡ some x
      → get j s.submissions ≡ some y
      → x.contest_id ≢ ""
      → x.contest_id ≡ y.contest_id
      → x.team_name ≡ y.team_name
      → is_terminal x.status ≡ false
      → is_terminal y.status ≡ false
      → i ≡ j

  blocked-false :
      (sub x y : Submission F)
      → (x.team_name ≡ sub.team_name) × (x.contest_id ≡ sub.contest_id)
      → x.contest_id ≡ y.contest_id
      → x.team_name ≡ y.team_name
      → is_terminal y.status ≡ false
      → blocks F sub.team_name sub.contest_id y ≡ false
      → ⊥
  blocked-false sub x y (m, k) c t b z =
      let same_team : str_eq y.team_name sub.team_name ≡ true =
        (eq_iff y.team_name sub.team_name).1 (sym t ∙ m) in
      let same_contest : str_eq y.contest_id sub.contest_id ≡ true =
        (eq_iff y.contest_id sub.contest_id).1 (sym c ∙ k) in
      ground (arith, same_team, same_contest, b, z)

  -- A write that is at its end, or that nothing blocks, keeps that.
  update-IsExclusive :
      (now : ℕ) (s : State F) (sub : Submission F)
      → (is_terminal sub.status ≡ false
          → sub.contest_id ≢ ""
          → (id : String) (x : Submission F) → get id s.submissions ≡ some x
          → blocks F sub.team_name sub.contest_id x ≡ false)
      → IsExclusive s
      → IsExclusive (update_submission F now sub s)
  update-IsExclusive now s sub h v i j x y e f n c t a b =
      let gi = get-update_submission F now sub s i in
      let gj = get-update_submission F now sub s j in
      elim (Bool-cases (str_eq sub.id i)) [
        | inl p ↦ elim (Bool-cases (str_eq sub.id j)) [
          | inl q ↦ sym ((eq_iff sub.id i).0 p) ∙ (eq_iff sub.id j).0 q
          | inr q ↦ absurd (
              blocked-false sub x y (ground (arith, gi, p, e)) c t b (
                h (ground (arith, gi, p, e, a)) (λ z. n (ground (arith, gi, p, e, z))) j y
                  (ground (arith, gj, q, f))))
        ]
        | inr p ↦ elim (Bool-cases (str_eq sub.id j)) [
          | inl q ↦ absurd (
              blocked-false sub y x (ground (arith, gj, q, f)) (sym c) (sym t) a (
                h (ground (arith, gj, q, f, b)) (λ z. n (ground (arith, gj, q, f, c, z))) i x
                  (ground (arith, gi, p, e))))
          | inr q ↦ v i j x y (ground (arith, gi, p, e)) (ground (arith, gj, q, f)) n c t a b
        ]
      ]

  set_status-IsExclusive :
      (now : ℕ) (s : State F) (sub : Submission F) (status : SubmissionStatus) (msg : String)
      → is_terminal status ≡ true
      → IsExclusive s
      → IsExclusive (set_status F now sub status msg s)
  unfolding set_status
  set_status-IsExclusive now s sub status msg e v =
      update-IsExclusive now s (record sub { status = status; status_msg = msg })
        (λ a. absurd (ground (arith, e, a))) v

  check_contest-free :
      (now : ℕ) (s : State F) (team contest : String) (answer : ActiveAnswer F)
      → check_contest F now s team answer ≡ admitted contest
      → contest ≢ ""
      → (id : String) (x : Submission F) → get id s.submissions ≡ some x
      → blocks F team contest x ≡ false
  unfolding check_contest
  check_contest-free now s team contest no_getter e n id x f = absurd (n (ground (arith, e)))
  check_contest-free now s team contest no_active e n id x f = absurd (ground (arith, e))
  check_contest-free now s team contest (active_contest c) e n id x f =
      ground (arith, e, f, guard-none team contest s id x)

  module _ (T : TextOps) where
    dispatch-IsExclusive :
        (now : ℕ) (s : State F) (sub : Submission F) (answer : EnqueueAnswer)
        → IsExclusive s
        → IsExclusive (dispatch F T now s sub answer).0
    unfolding dispatch
    dispatch-IsExclusive now s sub no_queue v = v
    dispatch-IsExclusive now s sub (refused err) v =
        set_status-IsExclusive now s sub failed _ refl v
    dispatch-IsExclusive now s sub taken v = v

    admit-IsExclusive :
        (now : ℕ) (s : State F) (id : String) (req : SubmitRequest) (size : ℤ)
        (archive : Option String) (answer : EnqueueAnswer) (contest : ActiveAnswer F) (c : Checked)
        → check_contest F now s req.team_name contest ≡ c
        → IsExclusive s
        → IsExclusive (admit F T now s id req size archive answer c).0
    admit-IsExclusive now s id req size archive answer contest (denied e) k v = v
    admit-IsExclusive now s id req size none answer contest (admitted cid) k v = v
    admit-IsExclusive now s id req size (some path) answer contest (admitted cid) k v =
        let sub = new_submission F now id req size cid path in
        dispatch-IsExclusive now (update_submission F now sub s) sub answer (
          update-IsExclusive now s sub
            (λ _ n j x f. check_contest-free now s req.team_name cid contest k n j x f) v)

    -- Whatever the request and the outside world's answers, `Ingest` keeps the rule that in a contest
    -- no team has two submissions in progress.
    pub ingest-IsExclusive :
        (now : ℕ) (s : State F) (id : String) (req : SubmitRequest) (size : ℤ)
        (contest : ActiveAnswer F) (archive : Option String) (answer : EnqueueAnswer)
        → IsExclusive s
        → IsExclusive (ingest F T now s id req size contest archive answer).0
    unfolding ingest
    ingest-IsExclusive now s id req size contest archive answer v =
        let c = check_contest F now s req.team_name contest in
        let done = admit-IsExclusive now s id req size archive answer contest c refl v in
        elim (Bool-cases (language_known req.language)) [
          | inr p ↦ rw (ingest, p) v
          | inl p ↦ elim (Bool-cases (protocol_supported req.protocol)) [
            | inr q ↦ rw (ingest, p, q) v
            | inl q ↦ elim (Bool-cases (str_eq req.team_name "")) [
              | inl r ↦ rw (ingest, p, q, r) v
              | inr r ↦ rw (ingest, p, q, r) done
            ]
          ]
        ]

    pub stop_container-IsExclusive :
        (now : ℕ) (s : State F) (id : String) (stopped : Bool)
        → IsExclusive s
        → IsExclusive (stop_container F T now s id stopped).0
    unfolding stop_container
    stop_container-IsExclusive now s id stopped v = elim (Option-cases (get id s.submissions)) [
      | inl e ↦ rw (stop_container, e) v
      | inr (sub, e) ↦ elim (Bool-cases (str_eq sub.container_id "")) [
        | inl a ↦ rw (stop_container, e, a) v
        | inr a ↦ elim (Bool-cases stopped) [
          | inl b ↦
              rw (stop_container, e, a, b)
                (set_status-IsExclusive now s sub completed "manually stopped" refl v)
          | inr b ↦ rw (stop_container, e, a, b) v
        ]
      ]
    ]
