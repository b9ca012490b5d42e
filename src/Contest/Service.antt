-- ===== src/Contest/Service.antt =====
-- internal/contest/service.go: ContestService over a MemoryContestStore. The clock and the new UUID
-- of a call are its arguments; a call returns the new store, its result, and what it broadcasts.
-- `sort_slice` is Go's `sort.Slice`, which leaves the order of equal elements open.
use nexus_bench.Base.{
  ℕ, suc, String, Bool, true, false, ◌&&◌, not, Option, none, some, List, [], ◌∷◌, ℤ, eq_ℤ, pos,
  str_eq, if◌then◌else◌,
}
use nexus_bench.Base.Float.{FloatOps}
use nexus_bench.Models.{
  Contest, VolatilityProfile, LeaderboardEntry, ContestStatus, draft, active, closed,
}
use nexus_bench.Contest.Store.{
  ContestError, Result, ok, err, already_active, wrong_status, name_required, profiles_required,
  MemoryContestStore, save, get_contest, get_active, list_contests, update, snapshot_leaderboard,
}
use nexus_bench.Contest.Defaults.{default_low_profile, default_medium_profile, default_high_profile}

abbrev pub or_string : String → String → String
or_string new old = if str_eq new "" then old else new

abbrev pub or_int : ℤ → ℤ → ℤ
or_int new old = if eq_ℤ new (pos 0) then old else new

abbrev pub has_all {ℓ} : {A : Type ℓ} → Option A → Option A → Option A → Bool
has_all (some a) (some b) (some c) = true
has_all _ _ _ = false

module _ (F : FloatOps) where
  open F use {Float, of_ℕ, ratio, eq, lt}

  abbrev pub or_float : Float → Float → Float
  or_float new old = if eq new (of_ℕ 0) then old else new

  unfoldable pub merge_profile : VolatilityProfile F → VolatilityProfile F → VolatilityProfile F
  merge_profile base override = record {
    label = or_string override.label base.label;
    bot_count = or_int override.bot_count base.bot_count;
    test_duration = or_int override.test_duration base.test_duration;
    market_data_path = or_string override.market_data_path base.market_data_path;
    limit_ratio = or_float override.limit_ratio base.limit_ratio;
    market_ratio = or_float override.market_ratio base.market_ratio;
    cancel_ratio = or_float override.cancel_ratio base.cancel_ratio;
    price_spread_cents = or_int override.price_spread_cents base.price_spread_cents;
    max_quantity = or_int override.max_quantity base.max_quantity;
    target_p99_ns = or_int override.target_p99_ns base.target_p99_ns;
    target_sustain_tps = or_float override.target_sustain_tps base.target_sustain_tps;
    latency_weight = or_float override.latency_weight base.latency_weight;
    throughput_weight = or_float override.throughput_weight base.throughput_weight;
    correctness_weight = or_float override.correctness_weight base.correctness_weight;
  }

  pub record CreateContestRequest : Type 0 where
    pub name : String
    pub use_defaults : Bool
    pub low_profile : Option (VolatilityProfile F)
    pub medium_profile : Option (VolatilityProfile F)
    pub high_profile : Option (VolatilityProfile F)
    pub low_weight : Float
    pub medium_weight : Float
    pub high_weight : Float
    pub ends_at : Option ℕ

  pub data EventType : Type 0 where
    updated frozen : EventType

  pub record LeaderboardEvent : Type 0 where
    pub type : EventType
    pub contest_id : String
    pub contest_name : String
    pub entries : List (LeaderboardEntry F)

  abbrev pub Store : Type 0
  Store = MemoryContestStore F

  merge_option : VolatilityProfile F → Option (VolatilityProfile F) → VolatilityProfile F
  unfolding merge_profile
  merge_option base none = base
  merge_option base (some override) = merge_profile base override

  -- the defaults stand in where all three weights are zero
  abbrev pub weights_unset : CreateContestRequest → Bool
  weights_unset req =
      eq req.low_weight (of_ℕ 0) && (eq req.medium_weight (of_ℕ 0) && eq req.high_weight (of_ℕ 0))

  unfoldable pub new_contest : ℕ → String → CreateContestRequest → Contest F
  unfolding merge_option
  new_contest now id req =
      let unset = weights_unset req in
      record {
        id = id;
        name = req.name;
        status = draft;
        low_profile = merge_option (default_low_profile F) req.low_profile;
        medium_profile = merge_option (default_medium_profile F) req.medium_profile;
        high_profile = merge_option (default_high_profile F) req.high_profile;
        low_weight = if unset then ratio 20 100 else req.low_weight;
        medium_weight = if unset then ratio 35 100 else req.medium_weight;
        high_weight = if unset then ratio 45 100 else req.high_weight;
        submissions_closed_at = none;
        contest_closed_at = none;
        ends_at = req.ends_at;
        created_at = now;
        updated_at = now;
      }

  -- a failed store call leaves the store as it was
  abbrev pub written : Store → Result Store → Contest F → Store × Result (Contest F)
  written s (ok s') c = (s', ok c)
  written s (err e) c = (s, err e)

  unfoldable pub create : Store → ℕ → String → CreateContestRequest → Store × Result (Contest F)
  unfolding new_contest
  create s now id req =
      if str_eq req.name ""
      then (s, err name_required)
      else if not req.use_defaults
          && not (has_all req.low_profile req.medium_profile req.high_profile)
      then (s, err profiles_required)
      else written s (save F s (new_contest now id req)) (new_contest now id req)

  abbrev pub activated : ℕ → Contest F → Contest F
  activated now c = record c { status = active; updated_at = now }

  activate_draft : Store → ℕ → ContestStatus → Contest F → Store × Result (Contest F)
  activate_draft s now draft c = written s (update F s (activated now c)) (activated now c)
  activate_draft s now active c = (s, err wrong_status)
  activate_draft s now closed c = (s, err wrong_status)

  unfoldable pub activate_found : Store → ℕ → Result (Contest F) → Store × Result (Contest F)
  unfolding activate_draft
  activate_found s now (err e) = (s, err e)
  activate_found s now (ok c) = activate_draft s now c.status c

  unfoldable pub activate : Store → ℕ → String → Store × Result (Contest F)
  activate s now id = elim (get_active F s) [
    | ok running ↦ (s, err already_active)
    | err e ↦ activate_found s now (get_contest F s id)
  ]

  unfoldable pub assign_ranks : ℕ → List (LeaderboardEntry F) → List (LeaderboardEntry F)
  assign_ranks n [] = []
  assign_ranks n (e ∷ es) = record e { rank = n } ∷ assign_ranks (suc n) es

  abbrev pub higher_score : LeaderboardEntry F → LeaderboardEntry F → Bool
  higher_score a b = lt b.final_score a.final_score

  module _
      (sort_slice : (LeaderboardEntry F → LeaderboardEntry F → Bool)
        → List (LeaderboardEntry F)
        → List (LeaderboardEntry F)) where
    unfoldable pub rank_entries : List (LeaderboardEntry F) → List (LeaderboardEntry F)
    rank_entries entries = assign_ranks 1 (sort_slice higher_score entries)

    abbrev pub closed_at : ℕ → Contest F → Contest F
    closed_at now c = record c { status = closed; contest_closed_at = some now; updated_at = now }

    -- the store, the error and the events of a `Close`
    pub record CloseResult : Type 0 where
      pub store : Store
      pub error : Option ContestError
      pub events : List LeaderboardEvent

    abbrev pub refuse_close : Store → ContestError → CloseResult
    refuse_close s e = record { store = s; error = some e; events = [] }

    -- `has_bus` is `s.bus != nil`
    abbrev pub broadcast : Bool → LeaderboardEvent → List LeaderboardEvent
    broadcast has_bus event = if has_bus then event ∷ [] else []

    close_updated :
        Bool → Store → String → Result Store → Contest F → List (LeaderboardEntry F) → CloseResult
    close_updated has_bus s id (err e) c entries = refuse_close s e
    close_updated has_bus s id (ok s') c entries =
        let ranked = rank_entries entries in
        record {
          store = snapshot_leaderboard F s' id ranked;
          error = none;
          events =
              broadcast has_bus (record {
                type = frozen;
                contest_id = id;
                contest_name = c.name;
                entries = ranked;
              });
        }

    close_status :
        Bool
        → Store
        → ℕ
        → String
        → ContestStatus
        → Contest F
        → List (LeaderboardEntry F)
        → CloseResult
    unfolding close_updated
    close_status has_bus s now id closed c entries = record { store = s; error = none; events = [] }
    close_status has_bus s now id draft c entries = refuse_close s wrong_status
    close_status has_bus s now id active c entries =
        close_updated has_bus s id (update F s (closed_at now c)) c entries

    unfoldable pub close : Bool → Store → ℕ → String → List (LeaderboardEntry F) → CloseResult
    unfolding close_status
    close has_bus s now id entries = elim (get_contest F s id) [
      | err e ↦ refuse_close s e
      | ok c ↦ close_status has_bus s now id c.status c entries
    ]

  unfoldable pub closed_only : List (Contest F) → List (Contest F)
  closed_only [] = []
  closed_only (c ∷ cs) = elim c.status [
    | closed ↦ c ∷ closed_only cs
    | draft ↦ closed_only cs
    | active ↦ closed_only cs
  ]

  unfoldable pub list_past : Store → Option (List (Contest F))
  list_past s = elim (list_contests F s) [ none ↦ none | some cs ↦ some (closed_only cs) ]
