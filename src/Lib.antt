-- ===== src/Lib.antt =====
-- Verification of the distributed cache under cache/ (package kamacache and its subpackages).
--
-- A group serves keys from a local cache, a cache wraps a store, and a store keeps entries within a
-- limit. Keys are spread over peers by a consistent hash ring; a bloom filter turns away keys that
-- were never seen. Every part has a module:
--
-- - Bloom: cache/bloomfilter/bloom.go. `BloomFilter` is the struct; `add`, `may_contain`, `reset`
--   are `Add`, `Contains`, `Reset`. Bloom/Marks and Bloom/Membership hold the proofs.
-- - ConsistentHash: cache/consistenthash/con_hash.go and config.go. `Ring` is the struct `Map`;
--   Ring.antt adds, removes and marks nodes, Route.antt holds the lookups, Rebalance.antt the
--   balancer, Sorting.antt what the code uses of Go's `sort`. Route/Order describes `GetN` without
--   loops; Route/Stability and Route/Leaving are about the keys that change their node when the ring
--   changes.
-- - Store: cache/store. Options.antt and Backend.antt are store.go, the interface being a record of
--   operations and laws; Lru.antt is lru.go; Lru2 is lru2.go, with Bucket.antt for the inner `cache`,
--   Mask.antt for the two helpers and Service.antt for `lru2Store`. Lru/Coherence is about what a key
--   reads as, and Lru/Coherence/Newest about the entry that was set last; Service/Stale about a value
--   that comes back on the second level of lru2.go.
-- - ByteView and Cache: cache/byteview.go and cache/cache.go, over any store. Cache/Coherence compares
--   runs of calls with a map of the views last added, over a store that `IsCoherent`; Cache/Retention
--   is about reading right after adding, over one that `IsRetentive`. lru.go is both; lru2.go, which
--   `DefaultCacheOptions` chooses, is not coherent.
-- - Flight: cache/singleflight/singleflight.go, a step relation of goroutines in `Do`, in any order.
-- - Picker: cache/peers.go. `pick_peer_with_fallback` is `PickPeerWithFallback`, Picker/Watch is about
--   `handleWatchEvents`, Picker/Watching about the goroutine that calls it and those that it starts,
--   Picker/Outsider about all that happens to a picker. Picker/Lifecycle makes and closes one.
--   Picker/Migration holds the migrations, over the groups' keys and values; what a client answers to a
--   `Set` is a parameter.
-- - Group: cache/group.go. Group.antt has the struct, the queue of tasks for the peers and what a
--   worker does with a task; Group/Workers the workers, as a step relation; Group/Methods the methods;
--   Group/Loading where a load takes its value from; Group/Retention what a `Get` right after a `Set`
--   gives; Group/Coherence the life of a group as a step relation with the views it should read;
--   Group/Table and Group/Destroy making groups, the table, and closing. What peers and the data source
--   answer are parameters.
-- - Client, Server and Metadata: cache/client.go and cache/server.go. A request is the fields of
--   `pb.Request` with the pairs of its metadata; `Metadata` is an interface of gRPC's metadata with the
--   law that a receiver finds what was sent under plain keys. `Server.set` and `Server.delete` run the
--   group's methods on the table of groups; Server/Relay composes both sides of a call.
-- - Registry: cache/registry/registry.go. `register` lists its calls of etcd for what the world answers.
-- - Common: lists, Go maps as association lists, tests on numbers, bits, int64 as bit patterns.
-- - Tests: concrete runs.
--
-- A method is a function from the state before to the result and the state after. It runs whole under
-- its lock, as in the source; where a method gives its lock back in between, its parts are functions
-- of their own. `close_locked` of Group/Destroy and `remove_locked` of ConsistentHash/Rebalance are
-- told whether their caller holds the lock that they take themselves: then they never return. Clock
-- readings are arguments. Byte strings are lists of numbers. A uint64, an int64 and a uint16 are
-- numbers whose wrap-around is written out; a Go panic is the result `none`.
--
-- Callers of one key that load at the same time are Flight's matter; a group's method is a run with
-- one caller.
--
-- Loops are structural, over a list or over a number of rounds. `shrink_loop` of the LRU store has as
-- many rounds as the list has elements, each of which is removed at most once. `search` has as many
-- as the range is long, which it halves. `walk_from` follows a list of at most as many nodes as the
-- bucket has.
--
-- Group/Coherence and Group/Retention ask of the store what Store/Backend states as `IsCoherent` and
-- `IsRetentive`; Store/Lru/Service proves both of lru.go.
--
-- The bucket of lru2.go is also described by Bucket/Spec, with no links or indices: a list of nodes in
-- the order of use. Bucket/Represents says when a bucket stands for a list, and Bucket/Runs compares
-- runs of calls on both.
--
-- The arrays of a bucket of lru2.go have `cap+1` links and `cap` nodes, so the theorems are about
-- buckets of at most 2 ^ 16 - 2 nodes; with one more `cap+1` wraps to 0, and `put` and `walk` panic. The
-- deletion that `Get` of lru.go starts for an entry that has expired runs at once, so one that comes
-- late and undoes a later `Set` is not represented. A peer that a picker reports is not nil, as with `ClientPicker`. `GetN` and
-- `GetNHealthy` are called with numbers for which `make` has room.
--
-- Not modelled: floating-point formulas, which are parameters (the bloom filter's sizes, the balancer's
-- load ratios) or, in statistics, left as the numbers that they divide; the group's load duration; the
-- intervals of the tickers; logging; what listening and serving do, certificates and the health service;
-- gRPC, etcd and the generated messages (cache/pb); cache/example.
pub mod Common
pub mod Bloom
pub mod ConsistentHash
pub mod Store
pub mod ByteView
pub mod Cache
pub mod Flight
pub mod Picker
pub mod Group
pub mod Metadata
pub mod Client
pub mod Registry
pub mod Server
mod Tests
