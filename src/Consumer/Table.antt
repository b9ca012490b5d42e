-- ===== src/Consumer/Table.antt =====
-- The table of internal/consumer/store.go: what `WriteWindow` keeps of the windows that are written.
use nexus_bench.Base.{
  ap, ◌∙◌, ◌⊎◌, refl, ℕ, ◌+◌, ◌≤◌, ◌<◌, String, true, ◌&&◌, List, [], ◌∷◌, ◌++◌, ◌∙◌, ◌≡◌, arith,
  inl, inr, All, Bool-cases, sum_of, sum_of-append, ◌==◌, ==_iff, str_eq, eq_iff, if◌then◌else◌,
}
use nexus_bench.Base.Float.{FloatOps}
use nexus_bench.Consumer.{same_key, LatencyWindow, has_key, write_window, write_windows}
use nexus_bench.Consumer.Conserved.{window_samples}

module _ (F : FloatOps) (ceil_rank : ℕ → ℕ → ℕ) where
  -- How many windows have a key.
  abbrev pub keyed : String → ℕ → LatencyWindow F ceil_rank → ℕ
  keyed id bucket w = if str_eq w.submission_id id && (w.window_start == bucket) then 1 else 0

  abbrev pub occurrences : String → ℕ → List (LatencyWindow F ceil_rank) → ℕ
  occurrences id bucket = sum_of (keyed id bucket)

  has_key-occurrences :
      (w : LatencyWindow F ceil_rank) (rows : List (LatencyWindow F ceil_rank))
      → has_key F ceil_rank w rows ≡ true
      → 0 < occurrences w.submission_id w.window_start rows
  unfolding has_key
  has_key-occurrences w [] h = cc
  has_key-occurrences w (r ∷ rows) h = ground (arith, has_key-occurrences w rows)

  -- Where no key is written twice, the table holds every sample that was written.
  pub write_windows-samples :
      (rows ws : List (LatencyWindow F ceil_rank)) (id : String) (bucket : ℕ)
      → ((j : String) (b : ℕ) → occurrences j b rows + occurrences j b ws ≤ 1)
      → sum_of (window_samples F ceil_rank id bucket) (write_windows F ceil_rank rows ws)
        ≡ sum_of (window_samples F ceil_rank id bucket) rows
          + sum_of (window_samples F ceil_rank id bucket) ws
  unfolding write_windows write_window
  write_windows-samples rows [] id bucket h = omega arith
  write_windows-samples rows (w ∷ ws) id bucket h = elim (Bool-cases (w.sample_n == 0)) [
    | inl z ↦
        rw (write_window, z)
          (ground (arith, z, write_windows-samples rows ws id bucket (λ j b. omega (arith, h j b))))
    | inr z ↦ elim (Bool-cases (has_key F ceil_rank w rows)) [
      | inl k ↦ absurd (
          ground (
            arith,
            eq_iff w.submission_id w.submission_id,
            has_key-occurrences w rows k,
            h w.submission_id w.window_start,
          ))
      | inr k ↦
          rw (write_window, z, k)
            (omega (
              arith,
              sum_of-append (window_samples F ceil_rank id bucket) rows (w ∷ []),
              write_windows-samples (rows ++ w ∷ []) ws id bucket
                  (λ j b. omega (arith, h j b, sum_of-append (keyed j b) rows (w ∷ []))),
            ))
    ]
  ]

  -- A write of the window changes nothing.
  abbrev Held : List (LatencyWindow F ceil_rank) → LatencyWindow F ceil_rank → Type 0
  Held rows w = ((w.sample_n == 0) ≡ true) ⊎ (has_key F ceil_rank w rows ≡ true)

  has_key-snoc :
      (w v : LatencyWindow F ceil_rank) (rows : List (LatencyWindow F ceil_rank))
      → has_key F ceil_rank w (rows ++ v ∷ [])
        ≡ (if has_key F ceil_rank w rows then true else same_key F ceil_rank w v)
  unfolding has_key
  has_key-snoc w v [] = ground arith
  has_key-snoc w v (r ∷ rows) = ground (arith, has_key-snoc w v rows)

  write_window-Held :
      (w v : LatencyWindow F ceil_rank) (rows : List (LatencyWindow F ceil_rank))
      → Held rows w
      → Held (write_window F ceil_rank rows v) w
  unfolding write_window
  write_window-Held w v rows h = ground (arith, h, has_key-snoc w v rows)

  written-Held :
      (w : LatencyWindow F ceil_rank) (rows : List (LatencyWindow F ceil_rank))
      → Held (write_window F ceil_rank rows w) w
  unfolding write_window
  written-Held w rows = ground (
    arith,
    has_key-snoc w w rows,
    eq_iff w.submission_id w.submission_id,
    ==_iff w.window_start w.window_start,
  )

  write_windows-Held :
      (w : LatencyWindow F ceil_rank) (rows ws : List (LatencyWindow F ceil_rank))
      → Held rows w
      → Held (write_windows F ceil_rank rows ws) w
  unfolding write_windows
  write_windows-Held w rows [] h = h
  write_windows-Held w rows (v ∷ ws) h =
      write_windows-Held w (write_window F ceil_rank rows v) ws (write_window-Held w v rows h)

  All-write_windows :
      (rows ws : List (LatencyWindow F ceil_rank))
      → All (Held (write_windows F ceil_rank rows ws)) ws
  unfolding write_windows
  All-write_windows rows [] = tt
  All-write_windows rows (w ∷ ws) = (
    write_windows-Held w (write_window F ceil_rank rows w) ws (written-Held w rows),
    All-write_windows (write_window F ceil_rank rows w) ws,
  )

  rows_unchanged :
      (rows ws : List (LatencyWindow F ceil_rank))
      → All (Held rows) ws
      → write_windows F ceil_rank rows ws ≡ rows
  unfolding write_windows write_window
  rows_unchanged rows [] h = refl
  rows_unchanged rows (w ∷ ws) (h, hs) =
      let same : write_window F ceil_rank rows w ≡ rows = ground (arith, h) in
      ap (λ x. write_windows F ceil_rank x ws) same ∙ rows_unchanged rows ws hs

  -- Windows that are written a second time change nothing.
  pub write_windows-again :
      (rows ws : List (LatencyWindow F ceil_rank))
      → let table = write_windows F ceil_rank rows ws in write_windows F ceil_rank table ws ≡ table
  write_windows-again rows ws = rows_unchanged _ ws (All-write_windows rows ws)
