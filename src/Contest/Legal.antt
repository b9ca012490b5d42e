-- ===== src/Contest/Legal.antt =====
-- The invariant of the contest store (internal/contest/store.go, service.go): contests stand under
-- their own IDs, at most one is active, and the insertion order lists each contest once.
use nexus_bench.Base.{
  ℕ, ◌≤◌, ◌≡◌, ◌≢◌, ◌⊎◌, refl, String, Option, none, some, List, [], ◌∷◌, arith, sum_of,
  sum_of-append, str_eq, eq_iff, if◌then◌else◌, inl, inr, Option-cases,
}
use nexus_bench.Base.Dict.{Dict, get, get-put, keys, keys-put-le, keys-get}
use nexus_bench.Base.Float.{FloatOps}
use nexus_bench.Models.{Contest, ContestStatus, draft, active, closed}
use nexus_bench.Contest.Store.{
  ContestError, ok, err, MemoryContestStore, new_memory_contest_store, save, first_active,
  get_active, update,
}

abbrev pub listed : String → List String → ℕ
listed id = sum_of λ j. if str_eq j id then 1 else 0

abbrev pub has_contest {ℓ} : {A : Type ℓ} → Option A → ℕ
has_contest none = 0
has_contest (some c) = 1

pub status-cases : (s : ContestStatus) → (s ≡ active) ⊎ ((s ≡ draft) ⊎ (s ≡ closed))
status-cases active = inl refl
status-cases draft = inr (inl refl)
status-cases closed = inr (inr refl)

module _ (F : FloatOps) where
  pub record IsLegal (s : MemoryContestStore F) : Type 0 where
    pub own_id : (id : String) (c : Contest F) → get id s.contests ≡ some c → c.id ≡ id
    pub one_active :
        (i j : String) (c d : Contest F)
        → get i s.contests ≡ some c
        → get j s.contests ≡ some d
        → c.status ≡ active
        → d.status ≡ active
        → i ≡ j
    pub listed_once : (id : String) → listed id s.order ≡ has_contest (get id s.contests)
    pub stored_once : (id : String) → keys id s.contests ≤ 1

  pub new_memory_contest_store-IsLegal : IsLegal (new_memory_contest_store F)
  unfolding new_memory_contest_store get
  new_memory_contest_store-IsLegal = record {
    own_id = λ id c e. cc;
    one_active = λ i j c d e k x y. cc;
    listed_once = λ id. refl;
    stored_once = λ id. omega arith;
  }

  -- A new draft keeps the store legal.
  pub save-IsLegal :
      (s s' : MemoryContestStore F) (c : Contest F)
      → c.status ≡ draft
      → save F s c ≡ ok s'
      → IsLegal s
      → IsLegal s'
  unfolding save
  save-IsLegal s s' c d e v = record {
    own_id =
        λ id x k. ground (arith, d, e, v.own_id id x, get-put c.id id c s.contests, eq_iff c.id id);
    one_active = λ i j x y p q a b. ground (
      arith,
      d,
      e,
      v.one_active i j x y,
      get-put c.id i c s.contests,
      eq_iff c.id i,
      get-put c.id j c s.contests,
      eq_iff c.id j,
    );
    listed_once = λ id. ground (
      arith,
      e,
      v.listed_once id,
      get-put c.id id c s.contests,
      eq_iff c.id id,
      sum_of-append (λ (j : String). if str_eq j id then 1 else 0) s.order (c.id ∷ []),
    );
    stored_once = λ id. ground (arith, e, keys-put-le c.id id c s.contests (v.stored_once id));
  }

  -- A write of a contest keeps the store legal, if it is active only where no other contest is.
  pub update-IsLegal :
      (s s' : MemoryContestStore F) (c : Contest F)
      → (c.status ≡ active
          → (j : String) (d : Contest F) → get j s.contests ≡ some d
          → d.status ≡ active
          → j ≡ c.id)
      → update F s c ≡ ok s'
      → IsLegal s
      → IsLegal s'
  unfolding update
  update-IsLegal s s' c alone e v = record {
    own_id =
        λ id x k. ground (arith, e, v.own_id id x, get-put c.id id c s.contests, eq_iff c.id id);
    one_active = λ i j x y p q a b. ground (
      arith,
      e,
      v.one_active i j x y,
      get-put c.id i c s.contests,
      eq_iff c.id i,
      get-put c.id j c s.contests,
      eq_iff c.id j,
      λ (z : c.status ≡ active). alone z j y,
      λ (z : c.status ≡ active). alone z i x,
    );
    listed_once =
        λ id. ground (arith, e, v.listed_once id, get-put c.id id c s.contests, eq_iff c.id id);
    stored_once = λ id. ground (arith, e, keys-put-le c.id id c s.contests (v.stored_once id));
  }

  first_active-none :
      (m : Dict (Contest F)) (id : String) (c : Contest F)
      → first_active F m ≡ none
      → get id m ≡ some c
      → c.status ≢ active
  unfolding first_active get
  first_active-none [] id c e k = cc
  first_active-none ((j, d) ∷ m) id c e k = ground (arith, first_active-none m id c)

  -- A stored contest that is active.
  abbrev pub FoundActive : Dict (Contest F) → Contest F → Type 0
  FoundActive m c = (id : String) × (get id m ≡ some c) × (c.status ≡ active)

  FoundActive-cons :
      (j : String) (d c : Contest F) (m : Dict (Contest F))
      → ((id : String) → keys id ((j, d) ∷ m) ≤ 1)
      → FoundActive m c
      → FoundActive ((j, d) ∷ m) c
  unfolding get
  FoundActive-cons j d c m u (id, e, a) = (id, ground (arith, e, u id, keys-get id c m), a)

  first_active-some :
      (m : Dict (Contest F)) (c : Contest F)
      → ((id : String) → keys id m ≤ 1)
      → first_active F m ≡ some c
      → FoundActive m c
  unfolding first_active get
  first_active-some [] c u e = cc
  first_active-some ((j, d) ∷ m) c u e = elim (status-cases d.status) [
    | inl a ↦ (j, ground (arith, a, e, eq_iff j j), ground (arith, a, e))
    | inr b ↦
        FoundActive-cons j d c m u
          (first_active-some m c (λ id. omega (arith, u id)) (ground (arith, b, e)))
  ]

  -- In a legal store `GetActive` succeeds exactly with the active contest, whatever order the map
  -- is ranged over.
  pub get_active-some :
      (s : MemoryContestStore F) (c : Contest F)
      → IsLegal s
      → get_active F s ≡ ok c
      → FoundActive s.contests c
  unfolding get_active
  get_active-some s c v e = first_active-some s.contests c v.stored_once (ground (arith, e))

  pub get_active-none :
      (s : MemoryContestStore F) (x : ContestError)
      → get_active F s ≡ err x
      → (id : String) (c : Contest F) → get id s.contests ≡ some c
      → c.status ≢ active
  unfolding get_active
  get_active-none s x e id c k = first_active-none s.contests id c (ground (arith, e)) k

  pub get_active_complete :
      (s : MemoryContestStore F) (id : String) (c : Contest F)
      → IsLegal s
      → get id s.contests ≡ some c
      → c.status ≡ active
      → get_active F s ≡ ok c
  unfolding get_active
  get_active_complete s id c v k a = elim (Option-cases (first_active F s.contests)) [
    | inl e ↦ absurd (first_active-none s.contests id c e k a)
    | inr (d, e) ↦
        let (j, f, b) = first_active-some s.contests d v.stored_once e in
        ground (arith, e, f, k, v.one_active id j c d k f a b)
  ]
