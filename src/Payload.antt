-- ===== src/Payload.antt =====
-- payload.py: the attributes of an alert, trimmed to what the recorder stores.
pub mod Trim
pub mod Cuts
pub mod Longest
pub mod Rungs
pub mod Budget
