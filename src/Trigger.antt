-- ===== src/Trigger.antt =====
-- trigger.py: the automation triggers on incidents. Matchers compare the severity that an event
-- carries with a threshold; the timed listener runs the action when the onset of an alert arrives.
pub mod Matchers
pub mod Crossings
pub mod Timed
pub mod Armed
pub mod Runs
pub mod Respelled
