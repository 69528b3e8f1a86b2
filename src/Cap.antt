-- ===== src/Cap.antt =====
-- providers/cap.py: the CAP document between a feed and the alert records.
pub mod Document
pub mod Language
pub mod Preferred
pub mod Alternate
pub mod Chain
pub mod Superseded
