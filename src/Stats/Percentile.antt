-- ===== src/Stats/Percentile.antt =====
-- The nearest-rank percentile of internal/botfleet/stats.go.
use nexus_bench.Base.{
  ℕ, zero, suc, ◌+◌, ◌*◌, ◌≤◌, ◌<◌, ◌≡◌, refl, ◌∙◌, ap, subst, Bool, false, some, List, [], ◌∷◌,
  arith, ltb, leb, if◌then◌else◌, length, get_elem?, count_if, All, sum_of,
}
use nexus_bench.Base.Sorting.{sort_stable, IsSorted, sort_stable-IsSorted, sum_of-sort_stable}
use nexus_bench.Stats.{sort_numbers, percentile_value, rank_index}

pub sort_numbers-IsSorted : (xs : List ℕ) → IsSorted ltb (sort_numbers xs)
unfolding sort_numbers
sort_numbers-IsSorted = sort_stable-IsSorted ltb (λ a b h. ground arith) (λ a b c h k. ground arith)

pub count_if-sort_numbers :
    (p : ℕ → Bool) (xs : List ℕ) → count_if p (sort_numbers xs) ≡ count_if p xs
unfolding sort_numbers
count_if-sort_numbers p = sum_of-sort_stable ltb (λ x. if p x then 1 else 0)

length-sum : (xs : List ℕ) → length xs ≡ sum_of (λ x. 1) xs
length-sum [] = refl
length-sum (x ∷ xs) = omega (arith, length-sum xs)

pub length-sort_numbers : (xs : List ℕ) → length (sort_numbers xs) ≡ length xs
unfolding sort_numbers
length-sort_numbers xs = omega (
  arith,
  length-sum (sort_stable ltb xs),
  length-sum xs,
  sum_of-sort_stable ltb (λ (x : ℕ). 1) xs,
)

none_below : (v : ℕ) (xs : List ℕ) → All (λ y. ltb y v ≡ false) xs → count_if (λ x. ltb x v) xs ≡ 0
none_below v [] h = refl
none_below v (x ∷ xs) h = ground (arith, h.0, none_below v xs h.1)

All-get_elem? : (P : ℕ → Type 0) (xs : List ℕ) (k v : ℕ) → All P xs → get_elem? xs k ≡ some v → P v
All-get_elem? P [] k v h e = cc
All-get_elem? P (x ∷ xs) zero v h e = subst P (ground (arith, e)) h.0
All-get_elem? P (x ∷ xs) (suc k) v h e = All-get_elem? P xs k v h.1 e

get_elem?-some : (xs : List ℕ) (k : ℕ) → k < length xs → (v : ℕ) × (get_elem? xs k ≡ some v)
get_elem?-some [] k h = absurd (omega arith)
get_elem?-some (x ∷ xs) zero h = (x, refl)
get_elem?-some (x ∷ xs) (suc k) h = get_elem?-some xs k (omega arith)

-- In an ascending list the element at index k has more than k elements up to it, and at most k
-- below it.
at_index :
    (xs : List ℕ) (k v : ℕ)
    → IsSorted ltb xs
    → get_elem? xs k ≡ some v
    → (k < count_if (λ x. leb x v) xs) × (count_if (λ x. ltb x v) xs ≤ k)
at_index [] k v s e = cc
at_index (x ∷ xs) zero v s e =
    let same : x ≡ v = ground (arith, e) in ground (arith, same, none_below x xs s.0)
at_index (x ∷ xs) (suc k) v s e =
    let le = All-get_elem? (λ y. ltb y x ≡ false) xs k v s.0 e in
    ground (arith, le, at_index xs k v s.1 e)

percentile_value-eq :
    (xs : List ℕ) (pct : ℕ)
    → pct ≤ 100
    → percentile_value xs pct ≡ get_elem? xs (rank_index (length xs) pct)
unfolding percentile_value
percentile_value-eq [] pct h = refl
percentile_value-eq (x ∷ []) pct h = rw (index_zero pct h) refl
  where
    index_zero : (p : ℕ) → p ≤ 100 → rank_index 1 p ≡ 0
    index_zero p l = ground arith
percentile_value-eq (x ∷ y ∷ xs) pct h = refl

index_below :
    (m p : ℕ)
    → 0 < m
    → 0 < p
    → p ≤ 100
    → (rank_index m p < m) × (p * m ≤ 100 * (rank_index m p + 1)) × (100 * rank_index m p < p * m)
index_below m p a b c = grind arith

module _ (samples : List ℕ) (pct v : ℕ)
    (found : get_elem? (sort_numbers samples) (rank_index (length samples) pct) ≡ some v) where
  counts_at :
      (rank_index (length samples) pct < count_if (λ x. leb x v) samples)
      × (count_if (λ x. ltb x v) samples ≤ rank_index (length samples) pct)
  counts_at =
      rw
        (
          ← count_if-sort_numbers (λ x. leb x v) samples,
          ← count_if-sort_numbers (λ x. ltb x v) samples,
        )
        (at_index (sort_numbers samples) (rank_index (length samples) pct) v
          (sort_numbers-IsSorted samples) found)

-- The nearest rank. Of at least one sample, for a percentage from 1 to 100, the value is read in
-- range; at least pct percent of the samples are no larger, and fewer than pct percent are smaller.
pub percentile_value_lem :
    (samples : List ℕ) (pct : ℕ)
    → 0 < length samples
    → 0 < pct
    → pct ≤ 100
    → (v : ℕ) × (percentile_value (sort_numbers samples) pct ≡ some v)
      × (pct * length samples ≤ 100 * count_if (λ x. leb x v) samples)
      × (100 * count_if (λ x. ltb x v) samples < pct * length samples)
percentile_value_lem samples pct n lo hi =
    let below = index_below (length samples) pct n lo hi in
    let l = length-sort_numbers samples in
    let (v, e) =
      get_elem?-some (sort_numbers samples) (rank_index (length samples) pct) (rw l below.0) in
    let c = counts_at samples pct v e in
    (
      v,
      percentile_value-eq (sort_numbers samples) pct hi
          ∙ ap (λ m. get_elem? (sort_numbers samples) (rank_index m pct)) l
          ∙ e,
      scaled (rank_index (length samples) pct) _ _ below.1 c.0,
      scaled_below (rank_index (length samples) pct) _ _ below.2 c.1,
    )
  where
    scaled : (k c m : ℕ) → m ≤ 100 * (k + 1) → k < c → m ≤ 100 * c
    scaled k c m a b = omega arith

    scaled_below : (k c m : ℕ) → 100 * k < m → c ≤ k → 100 * c < m
    scaled_below k c m a b = omega arith
