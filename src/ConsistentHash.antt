-- ===== src/ConsistentHash.antt =====
-- cache/consistenthash/con_hash.go and config.go: the hash ring of virtual nodes.
-- Each exported method runs whole under `m.mu`, so a call is one function here; the counters that
-- are updated atomically under the read lock are fields of the state. `HashFunc` is a field of the
-- configuration, as in the source.
pub mod Defaults
pub mod Sorting
pub mod Ring
pub mod Route
pub mod Rebalance
