-- ===== src/Registry/Sweep.antt =====
-- Liveness sweeps of internal/orchestrator/registry.go: what `List` and `Stats` do to each record.
use nexus_bench.Base.{
  ℕ, ◌+◌, ◌≡◌, refl, ◌∙◌, ap, String, Bool, true, false, ◌&&◌, ◌||◌, not, Option, none, some, [],
  ◌∷◌, arith, length, keep_if, if◌then◌else◌,
}
use nexus_bench.Base.Dict.{get}
use nexus_bench.Registry.{
  WorkerStatus, WorkerRecord, Workers, is_alive, is_dead, list_mark, stats_mark, mark_all, records,
  list_workers, stats, count_statuses, count_status, RegistryStats, idle, busy, dead, other_status,
}

abbrev pub map_record : (WorkerRecord → WorkerRecord) → Option WorkerRecord → Option WorkerRecord
map_record f none = none
map_record f (some r) = some (f r)

pub get-mark_all :
    (mark : WorkerRecord → WorkerRecord) (id : String) (ws : Workers)
    → get id (mark_all mark ws) ≡ map_record mark (get id ws)
unfolding get mark_all
get-mark_all mark id [] = refl
get-mark_all mark id ((j, r) ∷ ws) = ground (arith, get-mark_all mark id ws)

abbrev is_idle : WorkerStatus → Bool
is_idle idle = true
is_idle busy = false
is_idle dead = false
is_idle (other_status s) = false

abbrev is_busy : WorkerStatus → Bool
is_busy busy = true
is_busy idle = false
is_busy dead = false
is_busy (other_status s) = false

-- Workers by what is true of them at a time, whatever was marked before.
abbrev pub live_idle : ℕ → WorkerRecord → Bool
live_idle now r = is_alive now r && is_idle r.status

abbrev pub live_busy : ℕ → WorkerRecord → Bool
live_busy now r = is_alive now r && is_busy r.status

abbrev pub gone : ℕ → WorkerRecord → Bool
gone now r = not (is_alive now r) || is_dead r.status

abbrev pub how_many : (WorkerRecord → Bool) → Workers → ℕ
how_many p ws = length (keep_if p (records ws))

count_statuses_lem :
    (now : ℕ) (ws : Workers) (s : RegistryStats)
    → let t = count_statuses (records (mark_all (stats_mark now) ws)) s in
      (t.total ≡ s.total)
      × (t.idle ≡ s.idle + how_many (live_idle now) ws)
      × (t.busy ≡ s.busy + how_many (live_busy now) ws)
      × (t.dead ≡ s.dead + how_many (gone now) ws)
unfolding count_statuses records mark_all
count_statuses_lem now [] s = omega arith
count_statuses_lem now ((id, r) ∷ ws) s =
    ground (arith, count_statuses_lem now ws (count_status (stats_mark now r).status s))

-- `Stats` counts every worker once in the total, as idle or busy only where its last heartbeat is
-- within the TTL and that is the status it reported, and as dead where the heartbeat is too old or
-- it was marked dead before.
pub stats_lem :
    (ws : Workers) (now : ℕ)
    → let s = (stats ws now).1 in
      (s.total ≡ length ws)
      × (s.idle ≡ how_many (live_idle now) ws)
      × (s.busy ≡ how_many (live_busy now) ws)
      × (s.dead ≡ how_many (gone now) ws)
unfolding stats
stats_lem ws now =
    omega (
      arith,
      count_statuses_lem now ws (record { total = length ws; idle = 0; busy = 0; dead = 0 }),
    )

list_mark-dead :
    (now : ℕ) (r : WorkerRecord) → is_alive now r ≡ false → (list_mark now r).status ≡ dead
list_mark-dead now r a = rw a (go r.status refl)
  where
    go :
        (x : WorkerStatus)
        → r.status ≡ x
        → (if not (is_dead r.status)
            then record r { status = dead; current_job_id = "" }
            else r).status
          ≡ dead
    go idle e = ground (arith, e)
    go busy e = ground (arith, e)
    go dead e = ground (arith, e)
    go (other_status t) e = ground (arith, e)

length-mark_all :
    (mark : WorkerRecord → WorkerRecord) (ws : Workers)
    → length (records (mark_all mark ws)) ≡ length ws
unfolding records mark_all
length-mark_all mark [] = refl
length-mark_all mark ((id, r) ∷ ws) = omega (arith, length-mark_all mark ws)

-- A `List` returns as many records as there are registered workers, and each worker with its status
-- recomputed: one whose last heartbeat is older than the TTL is dead, one within the TTL stands as
-- it was stored.
pub list_workers_lem :
    (ws : Workers) (now : ℕ) (id : String) (r : WorkerRecord)
    → get id ws ≡ some r
    → (length (list_workers ws now).1 ≡ length ws)
      × ((r' : WorkerRecord) × (get id (list_workers ws now).0 ≡ some r')
          × (is_alive now r ≡ false → r'.status ≡ dead)
          × (is_alive now r ≡ true → r' ≡ r))
unfolding list_workers
list_workers_lem ws now id r e = (
  length-mark_all (list_mark now) ws,
  (
    list_mark now r,
    get-mark_all (list_mark now) id ws ∙ ap (map_record (list_mark now)) e,
    (λ a. list_mark-dead now r a),
    (λ a. rw a refl),
  ),
)
