-- ===== src/Store/Lru/Service.antt =====
-- lru.go as an implementation of the `Store` interface.
pub mod Coherent
pub mod Retentive
use go.Common.{ℕ, ◌≡◌, refl, none, some, Bytes, arith}
use go.Store.Options.{Value}
use go.Store.Backend.{Backend}
use go.Store.Lru.{
  LruCache, new_lru_cache, element_of, delete_key, get, set, set_with_expiration, clear, keys_of,
  get_value, len, close,
}
use go.Store.Lru.Elements.{id_of, find_id}
use go.Store.Lru.Entries.{IsValid, total}
use go.Store.Lru.Methods.{new-IsValid, delete_key-IsValid, set_with_expiration-IsValid, get-IsValid}
use go.Common.Map.{Once, lookup}

module _ {V : Type 0} ⦃value : Value V⦄ where
  pub clear-IsValid : (c : LruCache V) → IsValid c → IsValid (clear c)
  unfolding clear lookup id_of find_id total Once
  clear-IsValid c v = record {
    unique = tt;
    below = λ i e f. absurd (ground arith);
    index = λ k. refl;
    used = refl;
    once = tt;
  }

  pub get_value-of_none :
      (now : ℕ) (key : Bytes) (c : LruCache V)
      → element_of key c ≡ none
      → get_value now key c ≡ none
  unfolding get_value
  get_value-of_none now key c e = rw (e, get_value) refl

  pub set-IsValid :
      (now later : ℕ) (key : Bytes) (w : V) (c : LruCache V)
      → IsValid c
      → IsValid (set now later key (some w) c)
  unfolding set
  set-IsValid now later key w c v = (set_with_expiration-IsValid now later key w 0 c v).0

  abbrev pub lru_backend : Backend V
  lru_backend = record {
    State = LruCache V;
    create = new_lru_cache;
    get = λ t key c. get t.now key c;
    set = λ t key w c. set t.now t.later key (some w) c;
    set_with_expiration = λ t key w d c. set_with_expiration t.now t.later key (some w) d c;
    delete = λ key c. delete_key key c;
    clear = λ c. clear c;
    len = λ c. len c;
    keys = λ c. keys_of c;
    get_value = λ t key c. get_value t.now key c;
    close = λ c. close c;
    IsValid = λ c. IsValid c;
    create-IsValid = λ opts. new-IsValid opts;
    get-IsValid = λ t key c v. (get-IsValid t.now key c v).0;
    set-IsValid = λ t key w c v. set-IsValid t.now t.later key w c v;
    set_with_expiration-IsValid =
        λ t key w d c v. (set_with_expiration-IsValid t.now t.later key w d c v).0;
    delete-IsValid = λ key c v. (delete_key-IsValid key c v).0;
    clear-IsValid = λ c v. clear-IsValid c v;
    get_value-delete = λ t key c v.
        get_value-of_none t.now key (delete_key key c).1 (delete_key-IsValid key c v).2;
    get-get_value = λ t key c v. (get-IsValid t.now key c v).1;
  }
