-- ===== src/Contest/Store.antt =====
-- internal/contest/store.go: MemoryContestStore. Each method runs under the store's mutex, so it is
-- one step; it stores and returns copies, so a record in the store has no alias. `ranging over the
-- map` of `GetActive` meets the contests in no fixed order; here it is the order of insertion.
use nexus_bench.Base.{String, Bool, true, false, Option, none, some, List, [], ◌∷◌, ◌++◌}
use nexus_bench.Base.Dict.{Dict, get, put}
use nexus_bench.Base.Float.{FloatOps}
use nexus_bench.Models.{Contest, ContestStatus, LeaderboardEntry, draft, active, closed}

-- The sentinel errors of store.go, service.go and models.go, and the two plain ones of `Create`.
pub data ContestError : Type 0 where
  not_found duplicate_contest no_active_contest already_active wrong_status : ContestError
  name_required profiles_required : ContestError

pub data Result {ℓ} (A : Type ℓ) : Type ℓ where
  ok : A → Result A
  err : ContestError → Result A

abbrev pub is_active : ContestStatus → Bool
is_active active = true
is_active draft = false
is_active closed = false

module _ (F : FloatOps) where
  pub record MemoryContestStore : Type 0 where
    pub contests : Dict (Contest F)
    pub order : List String
    pub snapshots : Dict (List (LeaderboardEntry F))

  unfoldable pub new_memory_contest_store : MemoryContestStore
  new_memory_contest_store = record { contests = []; order = []; snapshots = [] }

  unfoldable pub save : MemoryContestStore → Contest F → Result MemoryContestStore
  save s c = elim (get c.id s.contests) [
    | some existing ↦ err duplicate_contest
    | none ↦ ok (record s { contests = put c.id c s.contests; order = s.order ++ c.id ∷ [] })
  ]

  unfoldable pub get_contest : MemoryContestStore → String → Result (Contest F)
  get_contest s id = elim (get id s.contests) [ none ↦ err not_found | some c ↦ ok c ]

  unfoldable pub first_active : Dict (Contest F) → Option (Contest F)
  first_active [] = none
  first_active ((id, c) ∷ m) = elim c.status [
    | active ↦ some c
    | draft ↦ first_active m
    | closed ↦ first_active m
  ]

  unfoldable pub get_active : MemoryContestStore → Result (Contest F)
  unfolding first_active
  get_active s = elim (first_active s.contests) [ none ↦ err no_active_contest | some c ↦ ok c ]

  -- A listed ID with no contest is a nil dereference, hence `none`.
  unfoldable pub list_ids : Dict (Contest F) → List String → Option (List (Contest F))
  list_ids m [] = some []
  list_ids m (id ∷ ids) = elim (get id m) [
    | none ↦ none
    | some c ↦ elim (list_ids m ids) [ none ↦ none | some cs ↦ some (c ∷ cs) ]
  ]

  unfoldable pub list_contests : MemoryContestStore → Option (List (Contest F))
  list_contests s = list_ids s.contests s.order

  unfoldable pub update : MemoryContestStore → Contest F → Result MemoryContestStore
  update s c = elim (get c.id s.contests) [
    | none ↦ err not_found
    | some existing ↦ ok (record s { contests = put c.id c s.contests })
  ]

  unfoldable pub snapshot_leaderboard :
      MemoryContestStore → String → List (LeaderboardEntry F) → MemoryContestStore
  snapshot_leaderboard s contest_id entries = record s {
    snapshots = put contest_id entries s.snapshots;
  }

  unfoldable pub get_leaderboard_snapshot :
      MemoryContestStore → String → Result (List (LeaderboardEntry F))
  get_leaderboard_snapshot s contest_id = elim (get contest_id s.snapshots) [
    | none ↦ err not_found
    | some entries ↦ ok entries
  ]
