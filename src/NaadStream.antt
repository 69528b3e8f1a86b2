-- ===== src/NaadStream.antt =====
-- providers/naad_stream.py: the client of the NAAD socket. It cuts the alert documents out of the
-- character stream, tells heartbeats from alerts, and reconnects with a growing delay.
pub mod Frames
pub mod Search
pub mod Chunks
pub mod Client
pub mod Documents
pub mod Framing
pub mod Broken
pub mod Reconnect
