-- ===== src/Stats/Slide.antt =====
-- The loop of `computeMaxTPS` in internal/botfleet/stats.go, from its first to its last position.
use nexus_bench.Base.{
  ℕ, ◌+◌, ◌-◌, ◌≤◌, ◌<◌, ◌≡◌, refl, ◌∙◌, ap, sym, subst, false, ◌&&◌, List, [], ◌∷◌, ◌++◌, arith,
  ltb, leb, length, length-append, All, All-append, All-map, inl, inr,
}
use mathlib.Core.List.{append_assoc, append-nil}
use nexus_bench.Base.Sorting.{IsSorted}
use nexus_bench.Stats.{sort_numbers, advance, slide, max_window, window_ns}
use nexus_bench.Stats.Percentile.{sort_numbers-IsSorted, count_if-sort_numbers}
use nexus_bench.Stats.Window.{in_window, Old, UpTo, Best, advance_lem, count_kept, count_kept-Best}

All-split : (P : ℕ → Type 0) (xs ys : List ℕ) → All P (xs ++ ys) → All P xs × All P ys
All-split P [] ys h = (tt, h)
All-split P (x ∷ xs) ys h = let (a, b) = All-split P xs ys h.1 in ((h.0, a), b)

IsSorted-snoc : (xs : List ℕ) (t : ℕ) → IsSorted ltb xs → UpTo t xs → IsSorted ltb (xs ++ t ∷ [])
IsSorted-snoc [] t s u = (tt, tt)
IsSorted-snoc (x ∷ xs) t s u =
    (All-append _ xs (t ∷ []) s.0 (ground (arith, u.0), tt), IsSorted-snoc xs t s.1 u.1)

-- What the loop knows: `old` has left every window to come, `mid` stands between the positions.
record AtPosition (old mid ts : List ℕ) : Type 0 where
  left_behind : All (λ t. Old t old) ts
  ascending : IsSorted ltb mid
  passed : All (λ t. UpTo t mid) ts
  rest : IsSorted ltb ts

Old-later :
    (t : ℕ) (xs ts : List ℕ) → Old t xs → All (λ y. ltb y t ≡ false) ts → All (λ y. Old y xs) ts
Old-later t xs ts o = All-map _ _ ts (λ y h. All-map _ _ xs (λ x k. ground (arith, h)) o)

UpTo-snoc :
    (t : ℕ) (xs ts : List ℕ)
    → All (λ y. ltb y t ≡ false) ts
    → UpTo t xs
    → All (λ y. UpTo y (xs ++ t ∷ [])) ts
UpTo-snoc t xs ts h u =
    All-map _ _ ts
      (λ y k.
        All-append _ xs (t ∷ []) (All-map _ _ xs (λ x l. ground (arith, k)) u)
          (ground (arith, k), tt))
      h

Old-append : (t : ℕ) (xs ys : List ℕ) → Old t xs → Old t ys → Old t (xs ++ ys)
Old-append t = All-append (λ x. x + window_ns < t)

slide_lem :
    (ts old mid done from_left : List ℕ) (right left m : ℕ)
    → done ≡ old ++ mid
    → from_left ≡ mid ++ ts
    → right ≡ length old + length mid
    → left ≡ length old
    → AtPosition old mid ts
    → Best done m
    → Best (done ++ ts) (slide right left from_left ts m)
unfolding slide count_kept
slide_lem [] old mid done from_left right left m d f r l p b = rw append-nil b
slide_lem (t ∷ ts) old mid done from_left right left m d f r l p b =
    let (gone, kept, split, moved, o, k, s) = advance_lem left t mid ts p.ascending p.passed.0 in
    let (u, v) = All-split (λ x. x ≤ t) gone kept (subst (UpTo t) split p.passed.0) in
    let old' = old ++ gone in
    let mid' = kept ++ t ∷ [] in
    let same : done ≡ old' ++ kept = d ∙ ap (◌++◌ old) split ∙ sym (append_assoc old gone kept) in
    let sizes : length mid ≡ length gone + length kept =
      ap length split ∙ length-append gone kept in
    let at : advance left from_left t ≡ (left + length gone, kept ++ t ∷ ts) = rw f moved in
    let best : Best (done ++ t ∷ []) (count_kept m (length kept)) = rw same (
      count_kept-Best old' kept t m (Old-append t old gone p.left_behind.0 o) k v
        (subst (λ x. Best x m) same b)) in
    let position : AtPosition old' mid' ts = record {
      left_behind = Old-later t old' ts (Old-append t old gone p.left_behind.0 o) p.rest.0;
      ascending = IsSorted-snoc kept t s v;
      passed = UpTo-snoc t kept ts p.rest.0 v;
      rest = p.rest.1;
    } in
    let width : right - (left + length gone) ≡ length kept = omega (arith, sizes, r, l) in
    let counted : Best (done ++ t ∷ []) (count_kept m (right - (left + length gone))) =
      rw width best in
    rw (at, ← append_assoc done (t ∷ []) ts)
      (slide_lem ts old' mid' (done ++ t ∷ []) (kept ++ t ∷ ts) (right + 1) (left + length gone)
        (count_kept m (right - (left + length gone)))
        (ap (λ xs. xs ++ t ∷ []) same ∙ append_assoc old' kept (t ∷ []))
        (sym (append_assoc kept (t ∷ []) ts))
        (omega (arith, sizes, r, length-append old gone, length-append kept (t ∷ [])))
        (omega (arith, l, length-append old gone)) position counted)

in_window-sort_numbers : (s : ℕ) (xs : List ℕ) → in_window s (sort_numbers xs) ≡ in_window s xs
in_window-sort_numbers s = count_if-sort_numbers λ x. leb s x && leb x (s + window_ns)

start_position : (ts : List ℕ) → IsSorted ltb ts → AtPosition [] [] ts
start_position ts s = record {
  left_behind = nothing ts;
  ascending = tt;
  passed = nothing ts;
  rest = s;
}
  where
    nothing : (xs : List ℕ) → All (λ t. Unit {0}) xs
    nothing [] = tt
    nothing (x ∷ xs) = (tt, nothing xs)

-- `maxCount` is the largest number of sends that fall into any window of 100 ms, both ends included:
-- no window holds more, and some window holds that many.
pub max_window_lem :
    (sent_ats : List ℕ)
    → ((s : ℕ) → in_window s sent_ats ≤ max_window sent_ats)
      × ((s : ℕ) × (in_window s sent_ats ≡ max_window sent_ats))
unfolding max_window
max_window_lem sent_ats =
    let sorted = sort_numbers sent_ats in
    let best =
      slide_lem sorted [] [] [] sorted 0 0 0 refl refl refl refl
        (start_position sorted (sort_numbers-IsSorted sent_ats)) ((λ s. omega arith), inl refl) in
    (
      (λ s. omega (arith, best.0 s, in_window-sort_numbers s sent_ats)),
      elim best.1 [
        | inl z ↦ (0, omega (arith, z, best.0 0, in_window-sort_numbers 0 sent_ats))
        | inr (s, h) ↦ (s, omega (arith, h, best.0 s, in_window-sort_numbers s sent_ats))
      ],
    )
