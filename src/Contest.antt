-- ===== src/Contest.antt =====
-- internal/contest: the lifecycle of a contest. `Contest/Store` is store.go, `Contest/Defaults` is
-- defaults.go, `Contest/Service` is service.go.
pub mod Store
pub mod Defaults
pub mod Service
pub mod Legal
pub mod Lifecycle
pub mod Evolution
pub mod Race
pub mod Ranking
