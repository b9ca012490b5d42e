-- ===== src/Generator/Buffer.antt =====
-- The buffer of IDs of internal/botfleet/generator.go, and what taking one out of it leaves.
use nexus_bench.Base.{
  some-injective, subst, ℕ, zero, suc, ◌+◌, String, some, List, [], ◌∷◌, ◌≡◌, inl, inr, arith,
  count_if, get_elem?, Option-cases, str_eq, if◌then◌else◌,
}
use nexus_bench.Generator.{but_last, last_of, set_id, take_pending}

-- How often an ID stands in a list.
abbrev pub occurrences : String → List String → ℕ
occurrences id = count_if λ s. str_eq s id

abbrev pub one : String → String → ℕ
one s id = if str_eq s id then 1 else 0

but_last-occurrences :
    (id x : String) (xs : List String)
    → occurrences id (but_last (x ∷ xs)) + one (last_of x xs) id ≡ occurrences id (x ∷ xs)
but_last-occurrences id x [] = omega arith
but_last-occurrences id x (y ∷ ys) = omega (arith, but_last-occurrences id y ys)

set_id-occurrences :
    (i : ℕ) (id new old : String) (xs : List String)
    → get_elem? xs i ≡ some old
    → occurrences id (set_id i new xs) + one old id ≡ occurrences id xs + one new id
set_id-occurrences i id new old [] e = absurd cc
set_id-occurrences zero id new old (x ∷ xs) e = rw (some-injective e) (omega arith)
set_id-occurrences (suc i) id new old (x ∷ xs) e =
    omega (arith, set_id-occurrences i id new old xs e)

-- The last element goes, wherever a copy of it was put.
but_last-set_id :
    (i : ℕ) (id x : String) (xs : List String)
    → occurrences id (but_last (set_id i (last_of x xs) (x ∷ xs))) + one (last_of x xs) id
      ≡ occurrences id (set_id i (last_of x xs) (x ∷ xs))
but_last-set_id zero id x [] = omega arith
but_last-set_id zero id x (y ∷ ys) = omega (arith, but_last-occurrences id y ys)
but_last-set_id (suc i) id x [] = omega arith
but_last-set_id (suc zero) id x (y ∷ ys) = omega (arith, but_last-set_id zero id y ys)
but_last-set_id (suc (suc i)) id x (y ∷ ys) = omega (arith, but_last-set_id (suc i) id y ys)

pub take_pending-occurrences :
    (i : ℕ) (id target : String) (ids rest : List String)
    → take_pending i ids ≡ some (target, rest)
    → occurrences id rest + one target id ≡ occurrences id ids
take_pending-occurrences i id target [] rest e = absurd cc
take_pending-occurrences i id target (x ∷ xs) rest e = elim (Option-cases (get_elem? (x ∷ xs) i)) [
  | inl n ↦ absurd (cc (rw (take_pending, n) at e))
  | inr (old, n) ↦
      subst
        (λ (p : String × List String). occurrences id p.1 + one p.0 id ≡ occurrences id (x ∷ xs))
        (some-injective (rw (take_pending, n) at e))
        (omega
          (arith, but_last-set_id i id x xs, set_id-occurrences i id (last_of x xs) old (x ∷ xs) n))
]
