-- ===== src/Base/Rearranged.antt =====
-- What a rearrangement of a list keeps: sums, and propositions of every element.
use mathlib.Core.Logic.{∥∥₁_elim}
use mathlib.Core.List.{Permᴰ}
use mathlib.Core.List.{List, [], ◌∷◌, Perm}
use native.Mathlib.Nat.{ℕ_set}
use native.Mathlib.Omega.{arith}
use Prim.Native.Nat.{ℕ}
use mathlib.Core.Path.{◌≡◌, refl, ap, subst, ◌∙◌}
use nexus_bench.Base.Lists.{All, sum_of}

module _ {ℓ} {A : Type ℓ} (f : A → ℕ) where
  Permᴰ-sum_of : {a b : List A} → Permᴰ a b → sum_of f a ≡ sum_of f b
  Permᴰ-sum_of Permᴰ.nil = refl
  Permᴰ-sum_of (Permᴰ.cons e p) = omega (arith, ap f e, Permᴰ-sum_of p)
  Permᴰ-sum_of (Permᴰ.swap e d) = omega (arith, ap f e, ap f d)
  Permᴰ-sum_of (Permᴰ.trans p q) = Permᴰ-sum_of p ∙ Permᴰ-sum_of q

  pub sum_of-perm : {a b : List A} → Perm a b → sum_of f a ≡ sum_of f b
  sum_of-perm p = ∥∥₁_elim p (ℕ_set _ _) Permᴰ-sum_of

module _ {ℓ κ} {A : Type ℓ} (P : A → Type κ) where
  Permᴰ-All : {a b : List A} → Permᴰ a b → All P a → All P b
  Permᴰ-All Permᴰ.nil h = h
  Permᴰ-All (Permᴰ.cons e p) (h, hs) = (subst P e h, Permᴰ-All p hs)
  Permᴰ-All (Permᴰ.swap e d) (h, (k, hs)) = (subst P d k, (subst P e h, hs))
  Permᴰ-All (Permᴰ.trans p q) h = Permᴰ-All q (Permᴰ-All p h)

  pub All-prop : ((x : A) → IsProp (P x)) → (xs : List A) → IsProp (All P xs)
  All-prop h [] = hlevel
  All-prop h (x ∷ xs) = hlevel (h x, All-prop h xs)

  pub All-perm : ((x : A) → IsProp (P x)) → {a b : List A} → Perm a b → All P a → All P b
  All-perm prop {b = b} p h = ∥∥₁_elim p (All-prop prop b) (λ q. Permᴰ-All q h)
