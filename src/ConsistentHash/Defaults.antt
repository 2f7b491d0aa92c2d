-- ===== src/ConsistentHash/Defaults.antt =====
-- cache/consistenthash/config.go. `LoadBalanceThreshold` is read by floating-point code only, which
-- is a parameter where the ring is rebalanced.
use go.Common.{ℕ, Bytes}

pub record Config : Type 0 where
  pub default_replicas : ℕ
  pub min_replicas : ℕ
  pub max_replicas : ℕ
  pub hash_func : Bytes → ℕ  -- a uint32

-- `DefaultConfig`, over the checksum of `hash/crc32`.
unfoldable pub default_config : (checksum : Bytes → ℕ) → Config
default_config checksum = record {
  default_replicas = 50;
  min_replicas = 10;
  max_replicas = 200;
  hash_func = checksum;
}
