-- ===== src/GeometryStore.antt =====
-- geometry_store.py: the polygons of every config entry in one memory cache, least recently used
-- first, with a byte budget for each entry. `json.dumps` and the truncated SHA-256 are parameters.
pub mod Evict
pub mod Accounts
pub mod Budget
