-- ===== src/Store/Lru/Service/Retentive.antt =====
-- lru.go keeps the entry that was set last, where it fits into the limit on its own.
use go.Common.{ℕ, ◌+◌, ◌≤◌, ◌≡◌, some, Bytes, Bool-cases, inl, inr, length}
use go.Common.Int64
use go.Store.Options.{Value}
use go.Store.Backend.{IsRetentive}
use go.Store.Lru.{LruCache, set, get_value}
use go.Store.Lru.Entries.{IsValid}
use go.Store.Lru.Service.{lru_backend}
use go.Store.Lru.Coherence.Newest.{FitsAlone, NotPast, expiry}
use go.Store.Lru.Coherence.Stays.{set_with_expiration-get_value}

pub expiry-NotPast : (time now d : ℕ) → time ≤ now + d → NotPast time (expiry now d)
expiry-NotPast time now d le = elim (Bool-cases (Int64.lt 0 d)) [
  | inl mortal ↦ rw mortal le
  | inr eternal ↦ rw eternal tt
]

module _ {V : Type 0} ⦃value : Value V⦄ where
  pub set-reads :
      (now later time : ℕ) (key : Bytes) (w : V) (c : LruCache V)
      → IsValid c
      → FitsAlone (length key + value.len w) c.max_bytes
      → get_value time key (set now later key (some w) c) ≡ some w
  unfolding set
  set-reads now later time key w c v fits =
      set_with_expiration-get_value now later time key w 0 c v fits tt tt

  abbrev pub lru_backend-IsRetentive : IsRetentive (lru_backend {V = V})
  lru_backend-IsRetentive = record {
    Fits = λ c key w. FitsAlone (length key + value.len w) c.max_bytes;
    set-reads = λ t t' key w c v fits. set-reads t.now t.later t'.now key w c v fits;
    set_with_expiration-reads = λ t t' key w d c v fits early live.
        set_with_expiration-get_value t.now t.later t'.now key w d c v fits
          (expiry-NotPast t.later t.now d early) (expiry-NotPast t'.now t.now d live);
  }
