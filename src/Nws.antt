-- ===== src/Nws.antt =====
-- providers/nws_conventions.py: the VTEC severity and the collapse of re-issued products.
pub mod Vtec
pub mod Icons
pub mod Reissue
pub mod Newest
pub mod Collapse
