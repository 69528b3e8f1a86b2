-- ===== src/Coordinator.antt =====
-- coordinator.py: what stands between the fetched alerts, the store and the event bus.
pub mod Filters
pub mod Events
pub mod InOrder
pub mod Polygons
pub mod Published
