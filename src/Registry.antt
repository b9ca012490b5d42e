-- ===== src/Registry.antt =====
-- internal/orchestrator/registry.go: WorkerRegistry. Each method runs under the registry's mutex, so
-- it is one step; the clock is an argument. A heartbeat stores any status string that the worker
-- sends, so a status may be one of the three or another text. An `int` count may be negative.
pub mod Sweep
pub mod Laws
use nexus_bench.Base.{
  ℕ, suc, ◌+◌, ◌-◌, String, Bool, true, false, ◌&&◌, ◌||◌, not, Option, none, some, List, [], ◌∷◌,
  ℤ, pos, leb, str_eq, length, if◌then◌else◌,
}
use nexus_bench.Base.Dict.{Dict, get, put}

pub data WorkerStatus : Type 0 where
  idle busy dead : WorkerStatus
  other_status : String → WorkerStatus

-- 15 seconds in nanoseconds
abbrev pub heartbeat_ttl : ℕ
heartbeat_ttl = 15_000_000_000

pub record WorkerRecord : Type 0 where
  pub id : String
  pub status : WorkerStatus
  pub current_job_id : String
  pub registered_at : ℕ
  pub last_heartbeat : ℕ
  pub jobs_completed : ℤ

-- `time.Since(w.LastHeartbeat) <= HeartbeatTTL`; a heartbeat is never later than the clock, so the
-- difference does not go below zero
abbrev pub is_alive : ℕ → WorkerRecord → Bool
is_alive now w = leb (now - w.last_heartbeat) heartbeat_ttl

pub record HeartbeatUpdate : Type 0 where
  pub status : WorkerStatus
  pub current_job_id : String
  pub jobs_completed : ℤ

abbrev pub Workers : Type 0
Workers = Dict WorkerRecord

pub data RegistryError : Type 0 where
  empty_worker_id : RegistryError
  not_registered : RegistryError

pub data Result {ℓ} (A : Type ℓ) : Type ℓ where
  ok : A → Result A
  err : RegistryError → Result A

abbrev pub is_dead : WorkerStatus → Bool
is_dead dead = true
is_dead idle = false
is_dead busy = false
is_dead (other_status s) = false

-- a new worker, and one that registers again: only `ID` would be kept, and it is the key
abbrev pub registered : ℕ → String → WorkerRecord
registered now id = record {
  id = id;
  status = idle;
  current_job_id = "";
  registered_at = now;
  last_heartbeat = now;
  jobs_completed = pos 0;
}

abbrev pub reregistered : ℕ → WorkerRecord → WorkerRecord
reregistered now existing = record existing {
  status = idle;
  current_job_id = "";
  last_heartbeat = now;
  registered_at = now;
  jobs_completed = pos 0;
}

abbrev pub register_found :
    Workers → ℕ → String → Option WorkerRecord → Workers × Result WorkerRecord
register_found ws now id (some existing) =
    (put id (reregistered now existing) ws, ok (reregistered now existing))
register_found ws now id none = (put id (registered now id) ws, ok (registered now id))

unfoldable pub register : Workers → ℕ → String → Workers × Result WorkerRecord
register ws now id =
    if str_eq id "" then (ws, err empty_worker_id) else register_found ws now id (get id ws)

abbrev pub beaten : ℕ → HeartbeatUpdate → WorkerRecord → WorkerRecord
beaten now update rec = record rec {
  last_heartbeat = now;
  status = update.status;
  current_job_id = update.current_job_id;
  jobs_completed = update.jobs_completed;
}

-- the error, if there is one
unfoldable pub heartbeat : Workers → ℕ → String → HeartbeatUpdate → Workers × Option RegistryError
heartbeat ws now id update = elim (get id ws) [
  | none ↦ (ws, some not_registered)
  | some rec ↦ (put id (beaten now update rec) ws, none)
]

-- the loop body of `List`
abbrev pub list_mark : ℕ → WorkerRecord → WorkerRecord
list_mark now rec =
    if not (is_alive now rec) && not (is_dead rec.status)
    then record rec { status = dead; current_job_id = "" }
    else rec

-- the first part of the loop body of `Stats`
abbrev pub stats_mark : ℕ → WorkerRecord → WorkerRecord
stats_mark now rec = if not (is_alive now rec) then record rec { status = dead } else rec

-- Every record is updated in place.
unfoldable pub mark_all : (WorkerRecord → WorkerRecord) → Workers → Workers
mark_all mark [] = []
mark_all mark ((id, rec) ∷ ws) = (id, mark rec) ∷ mark_all mark ws

unfoldable pub records : Workers → List WorkerRecord
records [] = []
records ((id, rec) ∷ ws) = rec ∷ records ws

unfoldable pub list_workers : Workers → ℕ → Workers × List WorkerRecord
list_workers ws now = let marked = mark_all (list_mark now) ws in (marked, records marked)

unfoldable pub get_worker : Workers → String → Option WorkerRecord
get_worker ws id = get id ws

pub record RegistryStats : Type 0 where
  pub total : ℕ
  pub idle : ℕ
  pub busy : ℕ
  pub dead : ℕ

abbrev pub count_status : WorkerStatus → RegistryStats → RegistryStats
count_status WorkerStatus.idle s = record s { idle = s.idle + 1 }
count_status WorkerStatus.busy s = record s { busy = s.busy + 1 }
count_status WorkerStatus.dead s = record s { dead = s.dead + 1 }
count_status (other_status x) s = s

unfoldable pub count_statuses : List WorkerRecord → RegistryStats → RegistryStats
count_statuses [] s = s
count_statuses (rec ∷ recs) s = count_statuses recs (count_status rec.status s)

unfoldable pub stats : Workers → ℕ → Workers × RegistryStats
stats ws now =
    let marked = mark_all (stats_mark now) ws in
    (
      marked,
      count_statuses (records marked) (record { total = length ws; idle = 0; busy = 0; dead = 0 }),
    )
