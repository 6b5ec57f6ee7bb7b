-- ===== src/Rest.antt =====
-- internal/rest: the REST handlers.
pub mod HistoryQueries
