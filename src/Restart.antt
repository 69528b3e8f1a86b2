-- ===== src/Restart.antt =====
-- restore.py: the records of a run that the next one starts from.
pub mod File
pub mod Contents
