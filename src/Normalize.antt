-- ===== src/Normalize.antt =====
-- normalize.py: one vocabulary for the severity and the lifecycle of the alerts of all sources.
pub mod Alerts
pub mod Vocabulary
pub mod Counts
pub mod Refs
