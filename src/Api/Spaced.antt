-- ===== src/Api/Spaced.antt =====
-- The rate limit of the validation endpoint.
use nexus_bench.Base.{
  ℕ, ◌+◌, ◌-◌, ◌≤◌, String, ◌&&◌, Bool, true, false, none, some, List, [], ◌∷◌, ◌≡◌, ◌⊎◌, refl, sym,
  subst, ◌∙◌, some-injective, arith, inl, inr, Bool-cases, Option-cases, leb, str_eq, eq_iff,
  if◌then◌else◌,
}
use nexus_bench.Base.Dict.{get, put, get-put, get-remove}
use nexus_bench.Base.Float.{FloatOps}
use nexus_bench.Models.{Submission}
use nexus_bench.Api.{
  ValidateCall, ValidateReply, ValidationRateLimiter, allow, revoke, validate, validate_allowed,
}

-- no two of the times, which ascend, are closer than the window
abbrev pub Spaced : ℕ → List ℕ → Type 0
Spaced window [] = Unit
Spaced window (t ∷ []) = Unit
Spaced window (t ∷ u ∷ ts) = (t + window ≤ u) × Spaced window (u ∷ ts)

abbrev stamped : ValidationRateLimiter → ℕ → String → ValidationRateLimiter
stamped l now id = record l { last_allowed = put id now l.last_allowed }

allow-first :
    (l : ValidationRateLimiter) (now : ℕ) (id : String)
    → get id l.last_allowed ≡ none
    → allow l now id ≡ (stamped l now id, true)
unfolding allow
allow-first l now id n = ground (arith, n)

allow-later :
    (l : ValidationRateLimiter) (now : ℕ) (id : String) (last : ℕ)
    → get id l.last_allowed ≡ some last
    → allow l now id ≡ (if leb l.window (now - last) then (stamped l now id, true) else (l, false))
unfolding allow
allow-later l now id last n = ground (arith, n)

module _ (F : FloatOps) where
  -- The times at which the validator ran against a submission.
  unfoldable pub runs_of : String → ValidationRateLimiter → List (ValidateCall F) → List ℕ
  runs_of id l [] = []
  runs_of id l (c ∷ cs) =
      let rest = runs_of id (validate F l c).0 cs in
      if (validate F l c).1.1 && str_eq c.id id then c.now ∷ rest else rest

  -- The requests come in the order of their times, from a time on.
  abbrev pub IsTimed : ℕ → List (ValidateCall F) → Type 0
  IsTimed t [] = Unit
  IsTimed t (c ∷ cs) = (t ≤ c.now) × IsTimed c.now cs

  -- What the limiter knows when the validator has last run at a time.
  abbrev Knows : String → ValidationRateLimiter → ℕ → ℕ → Type 0
  Knows id l last now =
      (get id l.last_allowed ≡ some last)
      ⊎ ((get id l.last_allowed ≡ none) × (last + l.window ≤ now))

  -- The submission's last run is out of the window, or it has none that the limiter knows.
  abbrev Due : String → ValidationRateLimiter → ℕ → Type 0
  Due id l now =
      (get id l.last_allowed ≡ none)
      ⊎ ((last : ℕ) × ((get id l.last_allowed ≡ some last) × (leb l.window (now - last) ≡ true)))

  abbrev runs : String → ValidateCall F → ValidationRateLimiter × (ValidateReply × Bool) → Bool
  runs id c r = r.1.1 && str_eq c.id id

  -- What a request does to the limiter's entry of a submission: it runs the validator and is entered, nothing,
  -- or it clears the entry.
  abbrev Step :
      String
      → ValidationRateLimiter
      → ValidateCall F
      → ValidationRateLimiter × (ValidateReply × Bool)
      → Type 0
  Step id l c r =
      ((runs id c r ≡ true) × ((get id r.0.last_allowed ≡ some c.now) × Due id l c.now))
      ⊎ (((runs id c r ≡ false) × (get id r.0.last_allowed ≡ get id l.last_allowed))
          ⊎ ((runs id c r ≡ false) × ((get id r.0.last_allowed ≡ none) × Due id l c.now)))

  abbrev stored : ValidationRateLimiter → ValidateCall F → ValidationRateLimiter
  stored l c = record l { last_allowed = put c.id c.now l.last_allowed }

  allowed-Step :
      (id : String) (l : ValidationRateLimiter) (c : ValidateCall F) (sub : Submission F)
      → (str_eq c.id id ≡ true → Due id l c.now)
      → Step id l c (validate_allowed F (stored l c) c sub)
  unfolding revoke
  allowed-Step id l c sub due = ground (
    arith,
    due,
    get-put c.id id c.now l.last_allowed,
    get-remove c.id id (put c.id c.now l.last_allowed),
  )

  same-Due :
      (id : String) (l : ValidationRateLimiter) (c : ValidateCall F)
      → Due c.id l c.now
      → str_eq c.id id ≡ true
      → Due id l c.now
  same-Due id l c due e = subst (λ (i : String). Due i l c.now) ((eq_iff c.id id).0 e) due

  validate-Step :
      (id : String) (l : ValidationRateLimiter) (c : ValidateCall F) → Step id l c (validate F l c)
  unfolding validate allow
  validate-Step id l c = elim (Option-cases c.submission) [
    | inl e ↦ rw (validate, e) (inr (inl (refl, refl)))
    | inr (sub, e) ↦ elim (Option-cases (get c.id l.last_allowed)) [
      | inl n ↦
          rw (validate, e, allow-first l c.now c.id n)
            (allowed-Step id l c sub (same-Due id l c (inl n)))
      | inr (last, n) ↦ elim (Bool-cases (leb l.window (c.now - last))) [
        | inl w ↦
            rw (validate, e, allow-later l c.now c.id last n, w)
              (allowed-Step id l c sub (same-Due id l c (inr (last, (n, w)))))
        | inr w ↦ rw (validate, e, allow-later l c.now c.id last n, w) (inr (inl (refl, refl)))
      ]
    ]
  ]

  validate-window :
      (l : ValidationRateLimiter) (c : ValidateCall F) → (validate F l c).0.window ≡ l.window
  unfolding validate allow revoke
  validate-window l c = ground arith

  Due-spaced :
      (id : String) (l : ValidationRateLimiter) (last now t : ℕ)
      → last ≤ now
      → now ≤ t
      → Knows id l last now
      → Due id l t
      → last + l.window ≤ t
  Due-spaced id l last now t h k (inr (n, e)) due = omega arith
  Due-spaced id l last now t h k (inl e) (inl n) = absurd cc
  Due-spaced id l last now t h k (inl e) (inr (other, (n, w))) =
      ground (arith, some-injective (sym e ∙ n))

  kept :
      (id : String) (l l' : ValidationRateLimiter) (last now t : ℕ)
      → now ≤ t
      → get id l'.last_allowed ≡ get id l.last_allowed
      → l'.window ≡ l.window
      → Knows id l last now
      → Knows id l' last t
  kept id l l' last now t h g w (inl e) = inl (g ∙ e)
  kept id l l' last now t h g w (inr (n, e)) = inr (g ∙ n, omega (arith, w))

  -- When the validator has last run at a known time, all later runs keep the window to it.
  runs_of-Knows :
      (id : String) (l : ValidationRateLimiter) (cs : List (ValidateCall F)) (last now window : ℕ)
      → l.window ≡ window
      → last ≤ now
      → IsTimed now cs
      → Knows id l last now
      → Spaced window (last ∷ runs_of id l cs)
  unfolding runs_of
  runs_of-Knows id l [] last now window e le t k = tt
  runs_of-Knows id l (c ∷ cs) last now window e le (tc, t) k =
      let l' = (validate F l c).0 in
      let e' : l'.window ≡ window = validate-window l c ∙ e in
      elim (validate-Step id l c) [
        | inl (r, (g, due)) ↦ rw r (
          rw⁻¹ e (Due-spaced id l last now c.now le tc k due),
          runs_of-Knows id l' cs c.now c.now window e' (omega arith) t (inl g),
        )
        | inr (inl (r, g)) ↦ rw r (
            runs_of-Knows id l' cs last c.now window e' (omega arith) t
              (kept id l l' last now c.now tc g (validate-window l c) k))
        | inr (inr (r, (g, due))) ↦ rw r (
            runs_of-Knows id l' cs last c.now window e' (omega arith) t (
              inr (
                g,
                omega (arith, validate-window l c, Due-spaced id l last now c.now le tc k due),
              )))
      ]

  -- If the requests are handled one at a time, in the order of their times, then two runs of the validator against the same submission, that a
  -- limiter that has not seen the submission lets through, are at least the window apart, however many requests are refused
  -- or cleared in between.
  pub runs_of-Spaced :
      (id : String) (l : ValidationRateLimiter) (cs : List (ValidateCall F)) (now : ℕ)
      → get id l.last_allowed ≡ none
      → IsTimed now cs
      → Spaced l.window (runs_of id l cs)
  unfolding runs_of
  runs_of-Spaced id l [] now n t = tt
  runs_of-Spaced id l (c ∷ cs) now n (tc, t) =
      let l' = (validate F l c).0 in
      elim (validate-Step id l c) [
        | inl (r, (g, due)) ↦ rw r (
            runs_of-Knows id l' cs c.now c.now l.window (validate-window l c) (omega arith) t
              (inl g))
        | inr (inl (r, g)) ↦
            rw r (rw (validate-window l c) at (runs_of-Spaced id l' cs c.now (g ∙ n) t))
        | inr (inr (r, (g, due))) ↦
            rw r (rw (validate-window l c) at (runs_of-Spaced id l' cs c.now g t))
      ]
