-- ===== src/Stats/Window.antt =====
-- The sliding window of internal/botfleet/stats.go counts the sends in a window: one step of the
-- loop, and the best window so far.
use nexus_bench.Base.{
  ℕ, ◌+◌, ◌-◌, ◌≤◌, ◌<◌, ◌≡◌, ◌⊎◌, refl, ap, false, ◌&&◌, List, [], ◌∷◌, ◌++◌, arith, ltb, leb,
  if◌then◌else◌, length, count_if, All, All-map, sum_of-append, inl, inr, Bool-cases,
}
use nexus_bench.Base.Sorting.{IsSorted}
use nexus_bench.Stats.{advance, window_ns}

-- The sends in the window of 100 ms that begins at `s`, both ends included.
abbrev pub in_window : ℕ → List ℕ → ℕ
in_window s = count_if λ x. leb s x && leb x (s + window_ns)

-- What is too old for a window that reaches `t`, and what is not.
abbrev pub Old : ℕ → List ℕ → Type 0
Old t = All λ x. x + window_ns < t

abbrev pub Recent : ℕ → List ℕ → Type 0
Recent t = All λ x. t ≤ x + window_ns

abbrev pub UpTo : ℕ → List ℕ → Type 0
UpTo t = All λ x. x ≤ t

Ascending-Recent :
    (x t : ℕ) (xs : List ℕ) → t ≤ x + window_ns → All (λ y. ltb y x ≡ false) xs → Recent t xs
Ascending-Recent x t xs h = All-map _ _ xs (λ y k. ground arith)

-- `left` moves past exactly the sends that are too old.
pub advance_lem :
    (left t : ℕ) (mid rest : List ℕ)
    → IsSorted ltb mid
    → UpTo t mid
    → (old : List ℕ) × (kept : List ℕ) × (mid ≡ old ++ kept)
      × (advance left (mid ++ t ∷ rest) t ≡ (left + length old, kept ++ t ∷ rest))
      × Old t old
      × Recent t kept
      × IsSorted ltb kept
unfolding advance
advance_lem left t [] rest s u = ([], [], refl, ground arith, tt, tt, tt)
advance_lem left t (x ∷ mid) rest s u = elim (Bool-cases (ltb window_ns (t - x))) [
  | inl e ↦
      let (old, kept, a, b, c, d, f) = advance_lem (left + 1) t mid rest s.1 u.1 in
      (x ∷ old, kept, ap (◌∷◌ x) a, ground (arith, e, b), (ground (arith, e, u.0), c), d, f)
  | inr e ↦
      let near : t ≤ x + window_ns = ground (arith, e, u.0) in
      ([], x ∷ mid, refl, ground (arith, e), tt, (near, Ascending-Recent x t mid near s.0), s)
]

in_window-append :
    (s : ℕ) (xs ys : List ℕ) → in_window s (xs ++ ys) ≡ in_window s xs + in_window s ys
in_window-append s = sum_of-append (λ x. if leb s x && leb x (s + window_ns) then 1 else 0)

in_window-le : (s : ℕ) (xs : List ℕ) → in_window s xs ≤ length xs
in_window-le s [] = omega arith
in_window-le s (x ∷ xs) = ground (arith, in_window-le s xs)

in_window-Old : (s t : ℕ) (xs : List ℕ) → t ≤ s + window_ns → Old t xs → in_window s xs ≡ 0
in_window-Old s t [] h o = refl
in_window-Old s t (x ∷ xs) h o = ground (arith, o.0, in_window-Old s t xs h o.1)

-- The window that ends at `t` holds all recent sends up to `t`.
in_window-Recent :
    (t : ℕ) (xs : List ℕ) → Recent t xs → UpTo t xs → in_window (t - window_ns) xs ≡ length xs
in_window-Recent t [] r u = refl
in_window-Recent t (x ∷ xs) r u = ground (arith, r.0, u.0, in_window-Recent t xs r.1 u.1)

in_window-out : (s t : ℕ) → ((leb s t && leb t (s + window_ns)) ≡ false) → in_window s (t ∷ []) ≡ 0
in_window-out s t e = rw e refl

-- The best window over the sends that the loop has passed.
abbrev pub Best : List ℕ → ℕ → Type 0
Best done m = ((s : ℕ) → in_window s done ≤ m) × ((m ≡ 0) ⊎ ((s : ℕ) × (m ≤ in_window s done)))

unfoldable pub count_kept : ℕ → ℕ → ℕ
count_kept m n = if ltb m (n + 1) then n + 1 else m

-- One more send: the best window is the old one, or the one that ends here.
pub count_kept-Best :
    (old kept : List ℕ) (t m : ℕ)
    → Old t old
    → Recent t kept
    → UpTo t kept
    → Best (old ++ kept) m
    → Best ((old ++ kept) ++ t ∷ []) (count_kept m (length kept))
unfolding count_kept
count_kept-Best old kept t m o r u b = (
  bound,
  elim b.1 [
    | inl z ↦ inr (t - window_ns, reached z)
    | inr (s, h) ↦ elim (Bool-cases (ltb m (length kept + 1))) [
      | inl e ↦ inr (t - window_ns, rw e (here_reached))
      | inr e ↦ inr (s, rw e (omega (arith, h, in_window-append s (old ++ kept) (t ∷ []))))
    ]
  ],
)
  where
    whole :
        (s : ℕ)
        → in_window s ((old ++ kept) ++ t ∷ [])
          ≡ in_window s old + in_window s kept + in_window s (t ∷ [])
    whole s = omega (arith, in_window-append s (old ++ kept) (t ∷ []), in_window-append s old kept)

    here_reached : length kept + 1 ≤ in_window (t - window_ns) ((old ++ kept) ++ t ∷ [])
    here_reached = ground (arith, whole (t - window_ns), in_window-Recent t kept r u)

    reached :
        m ≡ 0
        → (if ltb m (length kept + 1) then length kept + 1 else m)
          ≤ in_window (t - window_ns) ((old ++ kept) ++ t ∷ [])
    reached z = ground (arith, z, here_reached)

    bound :
        (s : ℕ)
        → in_window s ((old ++ kept) ++ t ∷ [])
          ≤ (if ltb m (length kept + 1) then length kept + 1 else m)
    bound s = elim (Bool-cases (leb s t && leb t (s + window_ns))) [
      | inl e ↦
          let reach : t ≤ s + window_ns = ground (arith, e) in
          ground (arith, whole s, in_window-Old s t old reach o, in_window-le s kept)
      | inr e ↦ ground (arith, whole s, in_window-out s t e, b.0 s, in_window-append s old kept)
    ]
