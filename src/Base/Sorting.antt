-- ===== src/Base/Sorting.antt =====
-- Go's `sort.SliceStable`: the one stable rearrangement that a strict weak order gives, computed
-- by insertion.
use Prim.Native.Nat.{ℕ, ◌+◌}
use mathlib.Core.Path.{◌≡◌, refl}
use mathlib.Core.Bool.{Bool, true, false}
use mathlib.Core.List.{List, [], ◌∷◌, Perm}
use mathlib.Core.List.Perm
use native.Mathlib.Omega.{arith}
use nexus_bench.Base.Tests.{if◌then◌else◌, Bool-cases}
use nexus_bench.Base.Lists.{sum_of, All, All-map}
use mathlib.Core.Logic.{inl, inr}

module _ {ℓ} {A : Type ℓ} where
  pub insert_by : (A → A → Bool) → A → List A → List A
  insert_by less x [] = x ∷ []
  insert_by less x (y ∷ ys) = if less y x then y ∷ insert_by less x ys else x ∷ y ∷ ys

  unfoldable pub sort_stable : (A → A → Bool) → List A → List A
  unfolding insert_by
  sort_stable less [] = []
  sort_stable less (x ∷ xs) = insert_by less x (sort_stable less xs)

  sum_of-insert_by :
      (less : A → A → Bool) (f : A → ℕ) (x : A) (ys : List A)
      → sum_of f (insert_by less x ys) ≡ f x + sum_of f ys
  unfolding insert_by
  sum_of-insert_by less f x [] = refl
  sum_of-insert_by less f x (y ∷ ys) = ground (arith, sum_of-insert_by less f x ys)

  -- Sorting keeps every sum over the elements.
  pub sum_of-sort_stable :
      (less : A → A → Bool) (f : A → ℕ) (xs : List A) → sum_of f (sort_stable less xs) ≡ sum_of f xs
  unfolding sort_stable
  sum_of-sort_stable less f [] = refl
  sum_of-sort_stable less f (x ∷ xs) =
      omega (arith, sum_of-insert_by less f x (sort_stable less xs), sum_of-sort_stable less f xs)

module _ {ℓ κ} {A : Type ℓ} (less : A → A → Bool) (P : A → Type κ) where
  All-insert_by : (x : A) (ys : List A) → P x → All P ys → All P (insert_by less x ys)
  unfolding insert_by
  All-insert_by x [] p h = (p, tt)
  All-insert_by x (y ∷ ys) p h = elim (Bool-cases (less y x)) [
    | inl e ↦ rw e (h.0, All-insert_by x ys p h.1)
    | inr e ↦ rw e (p, h)
  ]

  pub All-sort_stable : (xs : List A) → All P xs → All P (sort_stable less xs)
  unfolding sort_stable
  All-sort_stable [] h = tt
  All-sort_stable (x ∷ xs) h = All-insert_by x (sort_stable less xs) h.0 (All-sort_stable xs h.1)

module _ {ℓ} {A : Type ℓ} (less : A → A → Bool) where
  -- No element stands behind one that it should precede.
  abbrev pub IsSorted : List A → Type 0
  IsSorted [] = Unit
  IsSorted (x ∷ xs) = All (λ y. less y x ≡ false) xs × IsSorted xs

module _ {ℓ} {A : Type ℓ} (less : A → A → Bool)
    (asym : (x y : A) → less x y ≡ true → less y x ≡ false)
    (negtrans : (x y z : A) → less z y ≡ false → less y x ≡ false → less z x ≡ false) where
  insert_by-IsSorted :
      (x : A) (ys : List A) → IsSorted less ys → IsSorted less (insert_by less x ys)
  unfolding insert_by
  insert_by-IsSorted x [] s = (tt, tt)
  insert_by-IsSorted x (y ∷ ys) s = elim (Bool-cases (less y x)) [
    | inl e ↦ rw e (
      All-insert_by less (λ z. less z y ≡ false) x ys (asym y x e) s.0,
      insert_by-IsSorted x ys s.1,
    )
    | inr e ↦ rw e ((e, All-map _ _ ys (λ z h. negtrans x y z h e) s.0), s)
  ]

  pub sort_stable-IsSorted : (xs : List A) → IsSorted less (sort_stable less xs)
  unfolding sort_stable
  sort_stable-IsSorted [] = tt
  sort_stable-IsSorted (x ∷ xs) =
      insert_by-IsSorted x (sort_stable less xs) (sort_stable-IsSorted xs)

module _ {ℓ} {A : Type ℓ} (less : A → A → Bool) where
  insert_by-perm : (x : A) (ys : List A) → Perm (insert_by less x ys) (x ∷ ys)
  unfolding insert_by
  insert_by-perm x [] = Perm.refl (x ∷ [])
  insert_by-perm x (y ∷ ys) = elim (Bool-cases (less y x)) [
    | inl e ↦ rw e (Perm.trans (Perm.cons y (insert_by-perm x ys)) (Perm.swap x y ys))
    | inr e ↦ rw e (Perm.refl (x ∷ y ∷ ys))
  ]

  -- Sorting only rearranges.
  pub sort_stable-perm : (xs : List A) → Perm (sort_stable less xs) xs
  unfolding sort_stable
  sort_stable-perm [] = Perm.refl []
  sort_stable-perm (x ∷ xs) =
      Perm.trans (insert_by-perm x (sort_stable less xs)) (Perm.cons x (sort_stable-perm xs))

-- What the documentation of Go's `sort.Slice` promises: a rearrangement that is sorted wherever
-- `less` is a strict weak order, and nothing of equal elements.
pub record IsSortSlice {ℓ} {A : Type ℓ} (sort_slice : (A → A → Bool) → List A → List A)
    : Type ℓ where
  pub rearranges : (less : A → A → Bool) (xs : List A) → Perm (sort_slice less xs) xs
  pub sorts :
      (less : A → A → Bool)
      → ((x y : A) → less x y ≡ true → less y x ≡ false)
      → ((x y z : A) → less z y ≡ false → less y x ≡ false → less z x ≡ false)
      → (xs : List A) → IsSorted less (sort_slice less xs)

-- A stable sort keeps that promise.
pub sort_stable-IsSortSlice {ℓ} : {A : Type ℓ} → IsSortSlice {A = A} sort_stable
sort_stable-IsSortSlice = record { rearranges = sort_stable-perm; sorts = sort_stable-IsSorted }
