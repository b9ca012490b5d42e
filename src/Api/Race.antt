-- ===== src/Api/Race.antt =====
-- Two validation requests in `allow` of internal/api/router.go at the same time.
use nexus_bench.Base.{ℕ, ◌-◌, ◌≡◌, String, Bool, true, some, arith, leb, eq_iff}
use nexus_bench.Base.Dict.{get, get-put}
use nexus_bench.Api.{ValidationRateLimiter, allow, load_or_store, store_if_due}

-- The answers to two requests for a submission, of which both look up the last time before either
-- stores its own.
abbrev pub both_load : ValidationRateLimiter → String → ℕ → ℕ → Bool × Bool
both_load l id t u =
    let (l1, first_seen) = load_or_store l t id in
    let (l2, second_seen) = load_or_store l1 u id in
    let (l3, first) = store_if_due l2 t id first_seen in
    let (l4, second) = store_if_due l3 u id second_seen in (first, second)

-- Where the last run of a submission is out of the window for two requests, both are allowed if they
-- look it up before either stores its own time; one after the other, the second is allowed only if it
-- is the window behind the first.
pub allow_race :
    (l : ValidationRateLimiter) (id : String) (last t u : ℕ)
    → get id l.last_allowed ≡ some last
    → leb l.window (t - last) ≡ true
    → leb l.window (u - last) ≡ true
    → (both_load l id t u ≡ (true, true)) × ((allow (allow l t id).0 u id).1 ≡ leb l.window (u - t))
unfolding allow
allow_race l id last t u e h k =
    (ground (arith, e, h, k), ground (arith, e, h, get-put id id t l.last_allowed, eq_iff id id))
