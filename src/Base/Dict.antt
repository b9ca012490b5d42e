-- ===== src/Base/Dict.antt =====
-- Go's `map[string]V` as an association list: a write replaces in place or appends, `delete`
-- drops the key.
use Prim.Native.Nat.{ℕ, ◌+◌, ◌≤◌, ◌<◌}
use Prim.Native.String.{String}
use mathlib.Core.Path.{◌≡◌, refl}
use mathlib.Core.Bool.{false}
use mathlib.Core.Option.{Option, none, some}
use mathlib.Core.List.{List, [], ◌∷◌}
use native.Mathlib.Omega.{arith}
use text.Mathlib.Text.{◌==◌ as str_eq}
use text.Mathlib.TextEquality.{eq_iff}
use nexus_bench.Base.Lists.{All}
use nexus_bench.Base.Tests.{if◌then◌else◌}

abbrev pub Dict {ℓ} : Type ℓ → Type ℓ
Dict V = List (String × V)

module _ {ℓ} {V : Type ℓ} where
  -- `v, ok := m[k]`
  unfoldable pub get : String → Dict V → Option V
  get k [] = none
  get k ((j, v) ∷ m) = if str_eq j k then some v else get k m

  -- `m[k] = v`
  unfoldable pub put : String → V → Dict V → Dict V
  put k v [] = (k, v) ∷ []
  put k v ((j, w) ∷ m) = if str_eq j k then (j, v) ∷ m else (j, w) ∷ put k v m

  -- `delete(m, k)`
  unfoldable pub remove : String → Dict V → Dict V
  remove k [] = []
  remove k ((j, v) ∷ m) = let rest = remove k m in if str_eq j k then rest else (j, v) ∷ rest

  pub get-put :
      (k j : String) (v : V) (m : Dict V)
      → get j (put k v m) ≡ (if str_eq k j then some v else get j m)
  unfolding get put
  get-put k j v [] = refl
  get-put k j v ((i, w) ∷ m) = ground (arith, eq_iff k j, eq_iff i k, eq_iff i j, get-put k j v m)

  pub get-remove :
      (k j : String) (m : Dict V) → get j (remove k m) ≡ (if str_eq k j then none else get j m)
  unfolding get remove
  get-remove k j [] = ground arith
  get-remove k j ((i, w) ∷ m) = ground (arith, eq_iff k j, eq_iff i k, eq_iff i j, get-remove k j m)

  -- How often a key stands in the list: at most once in what `put` builds.
  abbrev pub keys : String → Dict V → ℕ
  keys id [] = 0
  keys id ((j, v) ∷ m) = (if str_eq j id then 1 else 0) + keys id m

  keys-put_ne :
      (k j : String) (v : V) (m : Dict V) → str_eq k j ≡ false → keys j (put k v m) ≡ keys j m
  unfolding put
  keys-put_ne k j v [] h = ground (arith, h)
  keys-put_ne k j v ((i, w) ∷ m) h = ground (arith, h, keys-put_ne k j v m)

  pub keys-put-le : (k j : String) (v : V) (m : Dict V) → keys j m ≤ 1 → keys j (put k v m) ≤ 1
  unfolding put
  keys-put-le k j v [] h = ground arith
  keys-put-le k j v ((i, w) ∷ m) h =
      ground
        (arith, h, keys-put-le k j v m, keys-put_ne k j v m, eq_iff k j, eq_iff i j, eq_iff i k)

  pub keys-get : (k : String) (v : V) (m : Dict V) → get k m ≡ some v → 0 < keys k m
  unfolding get
  keys-get k v [] h = cc
  keys-get k v ((j, w) ∷ m) h = ground (arith, keys-get k v m)

  pub keys-get-none : (k : String) (m : Dict V) → get k m ≡ none → keys k m ≡ 0
  unfolding get
  keys-get-none k [] h = refl
  keys-get-none k ((j, v) ∷ m) h = ground (arith, keys-get-none k m)

module _ {ℓ} {V : Type ℓ} where
  keys-remove : (k j : String) (m : Dict V) → keys j (remove k m) ≤ keys j m
  unfolding remove
  keys-remove k j [] = omega arith
  keys-remove k j ((i, w) ∷ m) = ground (arith, keys-remove k j m)

  pub keys-remove-le : (k j : String) (m : Dict V) → keys j m ≤ 1 → keys j (remove k m) ≤ 1
  unfolding remove
  keys-remove-le k j [] h = h
  keys-remove-le k j ((i, w) ∷ m) h = ground (arith, keys-remove k j m, keys-remove-le k j m)

module _ {ℓ κ} {V : Type ℓ} (Q : String → V → Type κ) where
  tail-get :
      (k j : String) (v c : V) (m : Dict V)
      → keys j ((j, v) ∷ m) ≤ 1
      → get k m ≡ some c
      → get k ((j, v) ∷ m) ≡ some c
  unfolding get
  tail-get k j v c m h e = ground (arith, eq_iff j k, eq_iff j j, keys-get k c m)

  -- Where no key stands twice, what holds of every lookup holds of every pair.
  pub All-get :
      (m : Dict V)
      → ((k : String) → keys k m ≤ 1)
      → ((k : String) (c : V) → get k m ≡ some c → Q k c)
      → All (λ kc. Q kc.0 kc.1) m
  unfolding get
  All-get [] h q = tt
  All-get ((j, v) ∷ m) h q = (
    q j v (ground (arith, eq_iff j j)),
    All-get m (λ k. ground (arith, h k)) (λ k c e. q k c (tail-get k j v c m (h j) e)),
  )
