-- ===== src/Sandbox/Leaked.antt =====
-- What becomes of the port pool of internal/sandbox/docker.go over many deployments. `usedPorts` holds
-- submission IDs, and `Stop` releases a port by a container ID.
use nexus_bench.Base.{
  if◌then◌else◌, Option-cases, Bool-cases, min, count_if, ℕ, suc, ◌+◌, ◌≤◌, ◌<◌, ◌≡◌, ◌⊎◌, refl,
  inl, inr, String, Bool, true, false, ◌&&◌, none, some, List, [], ◌∷◌, arith, ltb, leb, length,
  All, sym, ap, subst, eq_iff,
}
use nexus_bench.Sandbox.{
  DeployAnswer, PortRange, UsedPorts, deploy, first_free, is_used, pool_size,
  release_port_by_container_id, stop,
}
use nexus_bench.Sandbox.Ports.{deploy-pool, deploy-none, first_free-some, first_free-none}

pub data Op : Type 0 where
  deploy_one : String → DeployAnswer → Op
  stop_one : String → Bool → Op

-- A deployment that has an image asks for a port.
abbrev pub asks : Op → Bool
asks (deploy_one id w) = w.has_image
asks (stop_one id stopped) = false

abbrev pub step : PortRange → UsedPorts → Op → UsedPorts
step cfg m (deploy_one id w) = (deploy cfg m id w).0
step cfg m (stop_one container_id stopped) = stop m container_id stopped

unfoldable pub run : PortRange → UsedPorts → List Op → UsedPorts
run cfg m [] = m
run cfg m (op ∷ ops) = run cfg (step cfg m op) ops

-- The IDs that are deployed are told apart from those of the containers that are stopped.
abbrev pub Apart : (String → Bool) → List Op → Type 0
Apart is_submission [] = Unit
Apart is_submission (deploy_one id w ∷ ops) = (is_submission id ≡ true) × Apart is_submission ops
Apart is_submission (stop_one id stopped ∷ ops) =
    (is_submission id ≡ false) × Apart is_submission ops

-- The first `k` ports are used, each by a submission.
record IsFilled (cfg : PortRange) (is_submission : String → Bool) (k : ℕ) (m : UsedPorts)
    : Type 0 where
  filled : (q : ℕ) → is_used q m ≡ (leb cfg.port_min q && ltb q (cfg.port_min + k))
  counted : length m ≡ k
  within : k ≤ pool_size cfg
  by_submissions : All (λ (e : ℕ × String). is_submission e.1 ≡ true) m

release-other :
    (is_submission : String → Bool) (id : String) (m : UsedPorts)
    → is_submission id ≡ false
    → All (λ (e : ℕ × String). is_submission e.1 ≡ true) m
    → release_port_by_container_id id m ≡ m
unfolding release_port_by_container_id
release-other f id [] h a = refl
release-other f id ((p, j) ∷ m) h (x, xs) =
    ground (arith, h, x, eq_iff j id, ap f, release-other f id m h xs)

stop-other :
    (is_submission : String → Bool) (id : String) (stopped : Bool) (m : UsedPorts)
    → is_submission id ≡ false
    → All (λ (e : ℕ × String). is_submission e.1 ≡ true) m
    → stop m id stopped ≡ m
unfolding stop
stop-other f id true m h a = release-other f id m h a
stop-other f id false m h a = refl

module _ (cfg : PortRange) (is_submission : String → Bool) where
  next-port :
      (k p : ℕ) (m : UsedPorts)
      → IsFilled cfg is_submission k m
      → first_free (pool_size cfg) cfg.port_min m ≡ some p
      → (p ≡ cfg.port_min + k) × (k < pool_size cfg)
  next-port k p m v e =
      let (a, b, c, d) = first_free-some (pool_size cfg) cfg.port_min p m e in
      ground (arith, a, b, c, v.filled p, v.filled (cfg.port_min + k), d (cfg.port_min + k))

  deploys-IsFilled :
      (k p : ℕ) (m : UsedPorts) (id : String)
      → IsFilled cfg is_submission k m
      → is_submission id ≡ true
      → first_free (pool_size cfg) cfg.port_min m ≡ some p
      → IsFilled cfg is_submission (suc k) ((p, id) ∷ m)
  unfolding is_used
  deploys-IsFilled k p m id v h e =
      let (q, b) = next-port k p m v e in
      record {
        filled = λ r. ground (arith, q, v.filled r);
        counted = omega (arith, v.counted);
        within = omega (arith, b);
        by_submissions = (h, v.by_submissions);
      }

  full :
      (m : UsedPorts)
      → IsFilled cfg is_submission (pool_size cfg) m
      → first_free (pool_size cfg) cfg.port_min m ≡ none
  full m v = elim (Option-cases (first_free (pool_size cfg) cfg.port_min m)) [
    | inl e ↦ e
    | inr (p, e) ↦ absurd (omega (arith, (next-port (pool_size cfg) p m v e).1))
  ]

  none-full :
      (k : ℕ) (m : UsedPorts)
      → IsFilled cfg is_submission k m
      → first_free (pool_size cfg) cfg.port_min m ≡ none
      → k ≡ pool_size cfg
  none-full k m v e = ground (
    arith,
    v.within,
    v.filled (cfg.port_min + k),
    first_free-none (pool_size cfg) cfg.port_min (cfg.port_min + k) m e,
  )

  -- The pool is filled by `n` requests more than `k`, or by as many as it has ports.
  abbrev FilledBy : ℕ → ℕ → UsedPorts → Type 0
  FilledBy k n m = (k' : ℕ) × (k' ≡ min (k + n) (pool_size cfg)) × IsFilled cfg is_submission k' m

  module _ (above : 0 < cfg.port_min) where
    deploy-FilledBy :
        (k : ℕ) (m : UsedPorts) (id : String) (w : DeployAnswer)
        → IsFilled cfg is_submission k m
        → is_submission id ≡ true
        → FilledBy k (if w.has_image then 1 else 0) (deploy cfg m id w).0
    deploy-FilledBy k m id w v h =
        let pool = deploy-pool cfg m id w above (ground (arith, v.filled 0, above)) in
        elim (Bool-cases w.has_image) [
          | inr i ↦ (
            k,
            ground (arith, i, v.within),
            subst (IsFilled cfg is_submission k) (sym (ground (arith, pool, i))) v,
          )
          | inl i ↦ elim (Option-cases (first_free (pool_size cfg) cfg.port_min m)) [
            | inl e ↦ (
              k,
              ground (arith, i, none-full k m v e),
              subst (IsFilled cfg is_submission k) (sym (ground (arith, pool, i, e))) v,
            )
            | inr (p, e) ↦ (
              suc k,
              ground (arith, i, (next-port k p m v e).1),
              subst (IsFilled cfg is_submission (suc k)) (sym (ground (arith, pool, i, e)))
                  (deploys-IsFilled k p m id v h e),
            )
          ]
        ]

    run-FilledBy :
        (k : ℕ) (m : UsedPorts) (ops : List Op)
        → IsFilled cfg is_submission k m
        → Apart is_submission ops
        → FilledBy k (count_if asks ops) (run cfg m ops)
    unfolding run
    run-FilledBy k m [] v h = (k, omega (arith, v.within), v)
    run-FilledBy k m (stop_one id stopped ∷ ops) v h =
        let (k', e, v') = run-FilledBy k m ops v h.1 in
        (
          k',
          omega (arith, e),
          subst (λ (x : UsedPorts). IsFilled cfg is_submission k' (run cfg x ops))
              (sym (stop-other is_submission id stopped m h.0 v.by_submissions)) v',
        )
    run-FilledBy k m (deploy_one id w ∷ ops) v h =
        let (k', e, v') = deploy-FilledBy k m id w v h.0 in
        let (k'', e', v'') = run-FilledBy k' (deploy cfg m id w).0 ops v' h.1 in
        (k'', omega (arith, e, e'), v'')

  -- Where the ports are above 0 and no container that is stopped has the ID of a submission, a port
  -- is never free again: after any deployments and stops from an empty pool, as many ports are used as
  -- deployments with an image were asked for, whether they started, failed or were stopped, up to the
  -- whole range; and a further deployment fails, unless fewer were asked for than there are ports.
  pub run_lem :
      (above : 0 < cfg.port_min) (ops : List Op) (id : String) (w : DeployAnswer)
      → Apart is_submission ops
      → let n = count_if asks ops in
        (length (run cfg [] ops) ≡ min n (pool_size cfg))
        × ((n < pool_size cfg) ⊎ ((deploy cfg (run cfg [] ops) id w).1 ≡ none))
  unfolding is_used
  run_lem above ops id w h =
      let (k, e, v) =
        run-FilledBy above 0 [] ops
          (record {
            filled = λ q. ground arith;
            counted = refl;
            within = omega arith;
            by_submissions = tt;
          })
          h in
      (
        omega (arith, v.counted, e),
        elim (Bool-cases (ltb (count_if asks ops) (pool_size cfg))) [
          | inl enough ↦ inl (ground (arith, enough))
          | inr enough ↦
              let all : k ≡ pool_size cfg = ground (arith, e, enough) in
              inr (
                deploy-none cfg (run cfg [] ops) id w (
                  full (run cfg [] ops)
                    (subst (λ x. IsFilled cfg is_submission x (run cfg [] ops)) all v)))
        ],
      )
