-- ===== src/Ingest.antt =====
-- providers/eccc_ingest.py: the documents that the NAAD stream feeds into an entry.
pub mod State
pub mod Repository
pub mod Live
pub mod Steps
pub mod Filed
pub mod Sound
pub mod Window
pub mod Throttle
pub mod Attempts
pub mod GivenUp
pub mod Dropped
