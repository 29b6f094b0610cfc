-- ===== src/Jobs.antt =====
-- crates/rustify-jobs: the job queue on a database table, and its workers.
pub mod Queue
