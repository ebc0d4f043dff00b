-- ===== src/Collections.antt =====
-- The containers of the standard library and of dashmap that the relay uses.
pub mod HashMap
pub mod HashSet
