-- ===== src/Store/Lru2.antt =====
-- cache/store/lru2.go: the two-level LRU store.
pub mod Bucket
pub mod Mask
pub mod Service
