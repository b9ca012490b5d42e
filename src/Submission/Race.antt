-- ===== src/Submission/Race.antt =====
-- Two requests of one team in `Ingest` of internal/submission/service.go at the same time: the guard
-- and the write are separate calls of the store.
