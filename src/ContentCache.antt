-- ===== src/ContentCache.antt =====
-- providers/cap_content_cache.py: fetched bodies in one memory cache with a byte budget, and the
-- coalescing of concurrent fetches of one URL.
pub mod Cache
pub mod Bytes
pub mod Bounded
pub mod Answers
