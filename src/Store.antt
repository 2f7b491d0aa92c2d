-- ===== src/Store.antt =====
-- cache/store: the two caches behind the `Store` interface.
pub mod Options
pub mod Backend
pub mod Lru
pub mod Lru2
