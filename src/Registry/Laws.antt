-- ===== src/Registry/Laws.antt =====
-- Which operations of internal/orchestrator/registry.go keep dead workers without a job.
use nexus_bench.Base.{
  List, [], ◌∷◌, ◌⊎◌, ℕ, ◌≡◌, ◌≢◌, refl, ◌∙◌, sym, subst, String, false, ◌&&◌, not, Option, none,
  some, arith, str_eq, eq_iff, inl, inr, Bool-cases, Option-cases,
}
use nexus_bench.Base.Dict.{get, put, get-put}
use nexus_bench.Registry.{
  WorkerRecord, HeartbeatUpdate, Workers, is_alive, is_dead, list_mark, stats_mark, mark_all,
  list_workers, stats, register, heartbeat, registered, reregistered, beaten, dead, register_found,
  records,
}
use nexus_bench.Registry.Sweep.{get-mark_all, map_record}

-- A dead worker holds no job, as the record's comment says.
abbrev pub HoldsNoJob : WorkerRecord → Type 0
HoldsNoJob r = r.status ≡ dead → r.current_job_id ≡ ""

pub record IsTidy (ws : Workers) : Type 0 where
  pub at_id : (id : String) (r : WorkerRecord) → get id ws ≡ some r → HoldsNoJob r
  pub own_id : (id : String) (r : WorkerRecord) → get id ws ≡ some r → r.id ≡ id

put-IsTidy :
    (ws : Workers) (id : String) (r : WorkerRecord)
    → r.id ≡ id
    → HoldsNoJob r
    → IsTidy ws
    → IsTidy (put id r ws)
put-IsTidy ws id r own h v = record {
  at_id = λ j x e d. ground (arith, h, v.at_id j x, get-put id j r ws, e, d);
  own_id = λ j x e. ground (arith, own, v.own_id j x, get-put id j r ws, eq_iff id j, e);
}

-- `Register`, on every branch, keeps the registry tidy.
pub register-IsTidy :
    (ws : Workers) (now : ℕ) (id : String) → IsTidy ws → IsTidy (register ws now id).0
unfolding register
register-IsTidy ws now id v = elim (Bool-cases (str_eq id "")) [
  | inl a ↦ rw a v
  | inr a ↦ elim (Option-cases (get id ws)) [
    | inl e ↦ rw (a, e, register_found) (put-IsTidy ws id (registered now id) refl (λ d. cc) v)
    | inr (r, e) ↦
        rw (a, e, register_found)
          (put-IsTidy ws id (reregistered now r) (v.own_id id r e) (λ d. cc) v)
  ]
]

-- `Heartbeat` keeps the registry tidy, if the worker does not report itself dead with a job.
pub heartbeat-IsTidy :
    (ws : Workers) (now : ℕ) (id : String) (u : HeartbeatUpdate)
    → (u.status ≡ dead → u.current_job_id ≡ "")
    → IsTidy ws
    → IsTidy (heartbeat ws now id u).0
unfolding heartbeat
heartbeat-IsTidy ws now id u h v = elim (Option-cases (get id ws)) [
  | inl e ↦ rw (e, heartbeat) v
  | inr (r, e) ↦ rw (e, heartbeat) (put-IsTidy ws id (beaten now u r) (v.own_id id r e) h v)
]

list_mark-HoldsNoJob : (now : ℕ) (r : WorkerRecord) → HoldsNoJob r → HoldsNoJob (list_mark now r)
list_mark-HoldsNoJob now r h = elim (Bool-cases (not (is_alive now r) && not (is_dead r.status))) [
  | inl a ↦ rw a (λ d. refl)
  | inr a ↦ rw a h
]

map_record-some :
    (f : WorkerRecord → WorkerRecord) (o : Option WorkerRecord) (r : WorkerRecord)
    → map_record f o ≡ some r
    → (x : WorkerRecord) × (o ≡ some x) × (f x ≡ r)
map_record-some f none r e = cc
map_record-some f (some x) r e = (x, refl, ground (arith, e))

-- `List` keeps the registry tidy.
pub list_workers-IsTidy : (ws : Workers) (now : ℕ) → IsTidy ws → IsTidy (list_workers ws now).0
unfolding list_workers
list_workers-IsTidy ws now v = record {
  at_id = λ id r e.
      let (x, k, m) =
        map_record-some (list_mark now) (get id ws) r
          (sym (get-mark_all (list_mark now) id ws) ∙ e) in
      subst HoldsNoJob m (list_mark-HoldsNoJob now x (v.at_id id x k));
  own_id = λ id r e.
      let (x, k, m) =
        map_record-some (list_mark now) (get id ws) r
          (sym (get-mark_all (list_mark now) id ws) ∙ e) in
      ground (arith, m, v.own_id id x k);
}

-- The calls that reach the registry, each with its clock.
pub data Call : Type 0 where
  registers : ℕ → String → Call
  beats : ℕ → String → HeartbeatUpdate → Call
  lists counts : ℕ → Call

abbrev pub step : Workers → Call → Workers
step ws (registers now id) = (register ws now id).0
step ws (beats now id u) = (heartbeat ws now id u).0
step ws (lists now) = (list_workers ws now).0
step ws (counts now) = (stats ws now).0

unfoldable pub run : Workers → List Call → Workers
run ws [] = ws
run ws (c ∷ cs) = run (step ws c) cs

-- The worker itself is not heard of again: who registers or sends a heartbeat is another one.
abbrev pub IsSilent : String → List Call → Type 0
IsSilent id [] = Unit
IsSilent id (registers now j ∷ cs) = (str_eq j id ≡ false) × IsSilent id cs
IsSilent id (beats now j u ∷ cs) = (str_eq j id ≡ false) × IsSilent id cs
IsSilent id (lists now ∷ cs) = IsSilent id cs
IsSilent id (counts now ∷ cs) = IsSilent id cs

register-other :
    (ws : Workers) (now : ℕ) (j id : String)
    → str_eq j id ≡ false
    → get id (register ws now j).0 ≡ get id ws
unfolding register
register-other ws now j id h = elim (Bool-cases (str_eq j "")) [
  | inl a ↦ rw a refl
  | inr a ↦ elim (Option-cases (get j ws)) [
    | inl e ↦ rw (a, e, register_found) (ground (arith, h, get-put j id (registered now j) ws))
    | inr (r, e) ↦
        rw (a, e, register_found) (ground (arith, h, get-put j id (reregistered now r) ws))
  ]
]

heartbeat-other :
    (ws : Workers) (now : ℕ) (j id : String) (u : HeartbeatUpdate)
    → str_eq j id ≡ false
    → get id (heartbeat ws now j u).0 ≡ get id ws
unfolding heartbeat
heartbeat-other ws now j id u h = elim (Option-cases (get j ws)) [
  | inl e ↦ rw (heartbeat, e) refl
  | inr (r, e) ↦ rw (heartbeat, e) (ground (arith, h, get-put j id (beaten now u r) ws))
]

-- The record of a worker that is found dead.
abbrev pub as_dead : WorkerRecord → WorkerRecord
as_dead r = record r { status = dead }

list-dead :
    (ws : Workers) (now : ℕ) (id : String) (r : WorkerRecord)
    → get id ws ≡ some (as_dead r)
    → get id (list_workers ws now).0 ≡ some (as_dead r)
unfolding list_workers
list-dead ws now id r e = ground (arith, e, get-mark_all (list_mark now) id ws)

stats-dead :
    (ws : Workers) (now : ℕ) (id : String) (r : WorkerRecord)
    → get id ws ≡ some (as_dead r)
    → get id (stats ws now).0 ≡ some (as_dead r)
unfolding stats
stats-dead ws now id r e = ground (arith, e, get-mark_all (stats_mark now) id ws)

run-dead :
    (ws : Workers) (cs : List Call) (id : String) (r : WorkerRecord)
    → IsSilent id cs
    → get id ws ≡ some (as_dead r)
    → get id (run ws cs) ≡ some (as_dead r)
unfolding run
run-dead ws [] id r s e = e
run-dead ws (registers now j ∷ cs) id r s e =
    run-dead (register ws now j).0 cs id r s.1 (register-other ws now j id s.0 ∙ e)
run-dead ws (beats now j u ∷ cs) id r s e =
    run-dead (heartbeat ws now j u).0 cs id r s.1 (heartbeat-other ws now j id u s.0 ∙ e)
run-dead ws (lists now ∷ cs) id r s e =
    run-dead (list_workers ws now).0 cs id r s (list-dead ws now id r e)
run-dead ws (counts now ∷ cs) id r s e =
    run-dead (stats ws now).0 cs id r s (stats-dead ws now id r e)

-- The record stands in what `List` returns.
abbrev pub Returned : WorkerRecord → List WorkerRecord → Type 0
Returned r [] = ⊥
Returned r (x ∷ xs) = (x ≡ r) ⊎ Returned r xs

get-Returned :
    (ws : Workers) (id : String) (r : WorkerRecord) → get id ws ≡ some r → Returned r (records ws)
unfolding get records
get-Returned [] id r e = cc
get-Returned ((j, x) ∷ ws) id r e = elim (Bool-cases (str_eq j id)) [
  | inl s ↦ inl (ground (arith, e, s))
  | inr s ↦ inr (get-Returned ws id r (ground (arith, e, s)))
]

stats-silent :
    (ws : Workers) (now : ℕ) (id : String) (r : WorkerRecord)
    → get id ws ≡ some r
    → is_alive now r ≡ false
    → get id (stats ws now).0 ≡ some (as_dead r)
unfolding stats
stats-silent ws now id r e a = ground (arith, a, e, get-mark_all (stats_mark now) id ws)

list-Returned :
    (ws : Workers) (now : ℕ) (id : String) (r : WorkerRecord)
    → get id (list_workers ws now).0 ≡ some (as_dead r)
    → Returned (as_dead r) (list_workers ws now).1
unfolding list_workers
list-Returned ws now id r e = get-Returned (mark_all (list_mark now) ws) id (as_dead r) e

-- A `Stats` that finds the heartbeat of a worker too old while it holds a job marks the worker dead with
-- the job. Unless the worker itself registers or sends a heartbeat again, whatever other calls follow,
-- a later `List` stores and returns it dead with the job still, and the registry is not tidy.
pub stats_keeps_job :
    (ws : Workers) (now : ℕ) (cs : List Call) (later : ℕ) (id : String) (r : WorkerRecord)
    → get id ws ≡ some r
    → is_alive now r ≡ false
    → r.current_job_id ≢ ""
    → IsSilent id cs
    → let (stored, returned) = list_workers (run (stats ws now).0 cs) later in
      (get id stored ≡ some (as_dead r)) × Returned (as_dead r) returned × (¬ IsTidy stored)
stats_keeps_job ws now cs later id r e a job silent =
    let s =
      list-dead (run (stats ws now).0 cs) later id r
        (run-dead (stats ws now).0 cs id r silent (stats-silent ws now id r e a)) in
    (
      s,
      list-Returned (run (stats ws now).0 cs) later id r s,
      λ v. job (v.at_id id (as_dead r) s refl),
    )
