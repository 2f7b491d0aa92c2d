-- ===== src/Store/Options.antt =====
-- cache/store/store.go: the value interface and the options.
use go.Common.{ℕ, Bytes, Bool, false, bytes_beq, if◌then◌else◌, [], ◌∷◌}

-- `Value`: what the caches ask of a stored value.
pub record Value (V : Type 0) : Type 0 where
  pub len : V → ℕ

-- `Options`. An int64 or a duration is its bit pattern; `notify` says that `OnEvicted` is set.
pub record Options : Type 0 where
  pub max_bytes : ℕ
  pub bucket_count : ℕ
  pub cap_per_bucket : ℕ
  pub level2_cap : ℕ
  pub cleanup_interval : ℕ
  pub notify : Bool

abbrev pub minute : ℕ
minute = 60_000_000_000

unfoldable pub new_options : Options
new_options = record {
  max_bytes = 8192;
  bucket_count = 16;
  cap_per_bucket = 512;
  level2_cap = 256;
  cleanup_interval = minute;
  notify = false;
}

pub data Kind : Type 0 where
  lru lru2 : Kind

-- The switch of `NewStore`: every other name is served by the LRU store.
unfoldable pub kind_of : (cache_type : Bytes) → Kind
kind_of cache_type = if bytes_beq cache_type (b'l' ∷ b'r' ∷ b'u' ∷ b'2' ∷ []) then lru2 else lru
