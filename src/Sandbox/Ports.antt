-- ===== src/Sandbox/Ports.antt =====
-- What one `Deploy` of internal/sandbox/docker.go does to the port pool.
use nexus_bench.Base.{
  if◌then◌else◌, ℕ, ◌==◌, zero, suc, ◌+◌, ◌≤◌, ◌<◌, ◌≡◌, refl, inl, inr, String, true, false,
  Option, none, some, [], ◌∷◌, arith, Option-cases, Bool-cases, subst,
}
use nexus_bench.Sandbox.{
  DeployAnswer, PortRange, UsedPorts, allocate_port, deploy, first_free, is_used, pool_size,
  release_port,
}

release_port-unused : (p : ℕ) (m : UsedPorts) → is_used p m ≡ false → release_port p m ≡ m
unfolding is_used release_port
release_port-unused p [] h = refl
release_port-unused p ((q, id) ∷ m) h = ground (arith, h, release_port-unused p m)

abbrev pub taken : String → UsedPorts → Option ℕ → UsedPorts
taken id m none = m
taken id m (some port) = (port, id) ∷ m

-- The first free port, and that all before it are used.
pub first_free-some :
    (n p q : ℕ) (m : UsedPorts)
    → first_free n p m ≡ some q
    → (p ≤ q) × (q < p + n) × (is_used q m ≡ false) × ((r : ℕ) → p ≤ r → r < q → is_used r m ≡ true)
unfolding first_free
first_free-some zero p q m e = cc
first_free-some (suc n) p q m e = elim (Bool-cases (is_used p m)) [
  | inr u ↦
      let k : p ≡ q = ground (arith, e, u) in
      (
        omega (arith, k),
        omega (arith, k),
        subst (λ x. is_used x m ≡ false) k u,
        λ r a b. absurd (omega (arith, k, a, b)),
      )
  | inl u ↦
      let (a, b, c, d) = first_free-some n (suc p) q m (ground (arith, e, u)) in
      (
        omega arith,
        omega arith,
        c,
        λ r x y. elim (Bool-cases (r == p)) [
          | inl s ↦ subst (λ x. is_used x m ≡ true) (ground (arith, s)) u
          | inr s ↦ d r (ground (arith, s, x)) y
        ],
      )
]

pub first_free-none :
    (n p r : ℕ) (m : UsedPorts) → first_free n p m ≡ none → p ≤ r → r < p + n → is_used r m ≡ true
unfolding first_free
first_free-none zero p r m e a b = absurd (omega (arith, a, b))
first_free-none (suc n) p r m e a b = elim (Bool-cases (is_used p m)) [
  | inr u ↦ absurd (ground (arith, e, u))
  | inl u ↦ elim (Bool-cases (r == p)) [
    | inl s ↦ subst (λ x. is_used x m ≡ true) (ground (arith, s)) u
    | inr s ↦
        first_free-none n (suc p) r m (ground (arith, e, u)) (ground (arith, s, a))
          (omega (arith, b))
  ]
]

-- A `Deploy` that has an image takes the first free port and keeps it, whether the container starts or
-- not; without an image or a free port the pool stays.
pub deploy-pool :
    (cfg : PortRange) (m : UsedPorts) (id : String) (w : DeployAnswer)
    → 0 < cfg.port_min
    → is_used 0 m ≡ false
    → (deploy cfg m id w).0
      ≡ (if w.has_image then taken id m (first_free (pool_size cfg) cfg.port_min m) else m)
unfolding deploy allocate_port release_port
deploy-pool cfg m id w pos zero_free =
    elim (Option-cases (first_free (pool_size cfg) cfg.port_min m)) [
      | inl e ↦ ground (arith, e)
      | inr (p, e) ↦
          let (a, b, free, c) = first_free-some (pool_size cfg) cfg.port_min p m e in
          elim (Option-cases w.started) [
            | inl k ↦ ground (
              arith,
              e,
              k,
              a,
              pos,
              release_port-unused p m free,
              release_port-unused 0 m zero_free,
            )
            | inr (x, k) ↦ ground (arith, e, k, release_port-unused p m free)
          ]
    ]

pub deploy-none :
    (cfg : PortRange) (m : UsedPorts) (id : String) (w : DeployAnswer)
    → first_free (pool_size cfg) cfg.port_min m ≡ none
    → (deploy cfg m id w).1 ≡ none
unfolding deploy allocate_port
deploy-none cfg m id w e = ground (arith, e)
