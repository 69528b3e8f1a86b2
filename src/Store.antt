-- ===== src/Store.antt =====
-- store.py: the alert store, which diffs one poll with the next, detects transitions and fires
-- the incident events. The children hold its state and operations, then its theorems.
pub mod State
pub mod Fields
pub mod Absence
pub mod Events
pub mod Reconcile
pub mod Boot
pub mod Process
pub mod Outcome
pub mod Frame
pub mod Removals
pub mod Told
pub mod Local
pub mod Missed
pub mod Gone
pub mod WellFormed
pub mod Passes
pub mod Placed
pub mod Unparked
pub mod Active
pub mod Kept
pub mod Silent
pub mod Missing
pub mod Restored
pub mod Once
