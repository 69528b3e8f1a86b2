-- ===== src/Revalidate.antt =====
-- providers/revalidate.py: conditional requests for feeds that are read whole at every poll.
pub mod Feed
pub mod Replay
