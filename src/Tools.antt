-- ===== src/Tools.antt =====
-- tools/src/librtools: what all libraries share.
pub mod Time
