-- ===== src/Store/Lru.antt =====
-- cache/store/lru.go: the LRU store over `container/list`, oldest entry first.
-- A list element is a pointer in the source: here it carries the number under which it was made,
-- and `items` maps a key to that number. Times are nanoseconds; `now` is what `time.Now()` returns.
-- A method runs whole under its lock, except `Get`, whose two halves are two functions. The calls of
-- `onEvicted` are logged, the latest first.
pub mod Elements
pub mod Entries
pub mod Eviction
pub mod Methods
pub mod Coherence
pub mod Service
use go.Common.{
  ℕ, zero, suc, ◌+◌, ◌-◌, ◌%◌, ◌^◌, Bool, true, false, not, ◌&&◌, ◌||◌, Option, none, some, List,
  [], ◌∷◌, ◌++◌, nat_beq, ltb, if◌then◌else◌, is_some, length, Bytes, bytes_beq, bytes_eq,
}
use go.Common.Int64
use go.Common.Map.{Map, lookup, insert, delete, keys}
use go.Store.Options.{Value, Options, minute}
use Elements.{Element, find_id, remove_id, set_value, move_to_back}

pub record LruCache (V : Type 0) : Type 0 where
  pub list : List (Element V)
  pub items : Map Bytes ℕ
  pub expires : Map Bytes ℕ
  pub max_bytes : ℕ
  pub used_bytes : ℕ
  pub cleanup_interval : ℕ
  pub notify : Bool
  pub evicted : List (Bytes × V)
  pub next_id : ℕ
  pub closed : Bool  -- `closeCh`

unfoldable pub new_lru_cache : {V : Type 0} → Options → LruCache V
new_lru_cache opts = record {
  list = [];
  items = [];
  expires = [];
  max_bytes = opts.max_bytes;
  used_bytes = 0;
  cleanup_interval = if Int64.lt 0 opts.cleanup_interval then opts.cleanup_interval else minute;
  notify = opts.notify;
  evicted = [];
  next_id = 0;
  closed = false;
}

-- What `Get` finds under the read lock.
pub data Found (V : Type 0) : Type 0 where
  missing : Found V
  expired : Found V  -- `go c.Delete(key)` is started
  present : Element V → Found V

module _ {V : Type 0} ⦃value : Value V⦄ where
  -- `hasExp && now.After(expTime)`
  unfoldable pub is_expired : (now : ℕ) → Bytes → LruCache V → Bool
  is_expired now key c = elim (lookup key c.expires) [ none ↦ false | some t ↦ ltb t now ]

  -- The element that `items` holds for the key.
  unfoldable pub element_of : Bytes → LruCache V → Option (Element V)
  element_of key c = elim (lookup key c.items) [ none ↦ none | some id ↦ find_id id c.list ]

  abbrev pub entry_size : Element V → ℕ
  entry_size e = length e.key + value.len e.value

  unfoldable pub remove_element : Element V → LruCache V → LruCache V
  remove_element e c = record c {
    list = remove_id e.id c.list;
    items = delete e.key c.items;
    expires = delete e.key c.expires;
    used_bytes = Int64.sub c.used_bytes (entry_size e);
    evicted = if c.notify then (e.key, e.value) ∷ c.evicted else c.evicted;
  }

  -- One round of the loop of `evict` over the expiry times.
  unfoldable pub expire_entry : (now : ℕ) → Bytes → (time : ℕ) → LruCache V → LruCache V
  expire_entry now key time c =
      if ltb time now then elim (element_of key c) [ none ↦ c | some e ↦ remove_element e c ] else c

  -- The loop, over the expiry times as they stand when it begins.
  unfoldable pub expire_loop : (now : ℕ) → Map Bytes ℕ → LruCache V → LruCache V
  expire_loop now [] c = c
  expire_loop now ((key, time) ∷ rest) c = expire_loop now rest (expire_entry now key time c)

  -- `c.maxBytes > 0 && c.usedBytes > c.maxBytes`
  unfoldable pub is_over : LruCache V → Bool
  is_over c = Int64.lt 0 c.max_bytes && Int64.lt c.max_bytes c.used_bytes

  -- The second loop of `evict`; each round shortens the list, so its length bounds the rounds.
  unfoldable pub shrink_loop : ℕ → LruCache V → LruCache V
  shrink_loop zero c = c
  shrink_loop (suc fuel) c = elim c.list [
    | [] ↦ c
    | front ∷ rest ↦
        let next = shrink_loop fuel (remove_element front c) in if is_over c then next else c
  ]

  unfoldable pub evict : (now : ℕ) → LruCache V → LruCache V
  evict now c = let c' = expire_loop now c.expires c in shrink_loop (length c'.list) c'

  unfoldable pub delete_key : Bytes → LruCache V → Bool × LruCache V
  delete_key key c = elim (element_of key c) [
    | none ↦ (false, c)
    | some e ↦ (true, remove_element e c)
  ]

  unfoldable pub get_read : (now : ℕ) → Bytes → LruCache V → Found V
  get_read now key c = elim (element_of key c) [
    | none ↦ missing
    | some e ↦ if is_expired now key c then expired else present e
  ]

  -- What `Get` does under the write lock, with the element that it read before.
  unfoldable pub get_promote : Bytes → Element V → LruCache V → LruCache V
  get_promote key e c =
      if is_some (lookup key c.items) then record c { list = move_to_back e.id c.list } else c

  -- `Get` with no other call between its halves. The deletion that it starts for an expired entry is
  -- run at once; in the source it is a goroutine, which another call may come before.
  unfoldable pub get : (now : ℕ) → Bytes → LruCache V → Option V × LruCache V
  get now key c = elim (get_read now key c) [
    | missing ↦ (none, c)
    | expired ↦ (none, (delete_key key c).1)
    | present e ↦ (some e.value, get_promote key e c)
  ]

  unfoldable pub set_expiry : (now expiration : ℕ) → Bytes → LruCache V → LruCache V
  set_expiry now expiration key c = record c {
    expires =
        if Int64.lt 0 expiration
        then insert key (now + expiration) c.expires
        else delete key c.expires;
  }

  unfoldable pub update_entry : Element V → V → LruCache V → LruCache V
  update_entry e v c = record c {
    used_bytes = Int64.add c.used_bytes (Int64.sub (value.len v) (value.len e.value));
    list = move_to_back e.id (set_value e.id v c.list);
  }

  unfoldable pub add_entry : Bytes → V → LruCache V → LruCache V
  add_entry key v c = record c {
    list = c.list ++ record { id = c.next_id; key = key; value = v } ∷ [];
    items = insert key c.next_id c.items;
    used_bytes = Int64.add c.used_bytes (length key + value.len v);
    next_id = c.next_id + 1;
  }

  -- `SetWithExpiration`; the value `none` is nil. It returns no error. The clock is read a second
  -- time by `evict`, at `later`.
  unfoldable pub set_with_expiration :
      (now later : ℕ) → Bytes → Option V → (expiration : ℕ) → LruCache V → LruCache V
  set_with_expiration now later key none expiration c = (delete_key key c).1
  set_with_expiration now later key (some v) expiration c =
      let c' = set_expiry now expiration key c in
      elim (element_of key c') [
        | some e ↦ update_entry e v c'
        | none ↦ evict later (add_entry key v c')
      ]

  unfoldable pub set : (now later : ℕ) → Bytes → Option V → LruCache V → LruCache V
  set now later key v c = set_with_expiration now later key v 0 c

  abbrev pub entries : List (Element V) → List (Bytes × V)
  entries [] = []
  entries (e ∷ l) = (e.key, e.value) ∷ entries l

  unfoldable pub clear : LruCache V → LruCache V
  clear c = record c {
    list = [];
    items = [];
    expires = [];
    used_bytes = 0;
    evicted = if c.notify then entries c.list ++ c.evicted else c.evicted;
  }

  abbrev pub keys_of : LruCache V → List Bytes
  keys_of c = keys c.items

  unfoldable pub get_value : (now : ℕ) → Bytes → LruCache V → Option V
  get_value now key c = elim (element_of key c) [
    | none ↦ none
    | some e ↦ if is_expired now key c then none else some e.value
  ]

  abbrev pub len : LruCache V → ℕ
  len c = length c.list

  -- Closing the channel twice panics.
  unfoldable pub close : LruCache V → Option (LruCache V)
  close c = if c.closed then none else some (record c { closed = true })
