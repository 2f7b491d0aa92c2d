-- ===== src/Group/Requests.antt =====
-- What the requests of group.go promise.
use go.Common.{
  ℕ, ◌+◌, ◌≡◌, ◌≢◌, ◌≤◌, refl, Bool, true, false, Option, none, some, List, [], ◌∷◌, Bytes,
  bytes_eq, bytes_beq, bytes_beq_iff, arith, length, length-append, ◌⊎◌, inl, inr, Option-cases,
  Bool-cases, ltb, ◌++◌,
}
use go.Bloom
use go.Bloom.{BloomFilter}
use go.Bloom.Membership.{IsValid, add-Added, may_contain-of_Holds}
use go.ByteView.{ByteView}
use go.Store.Backend.{Backend, Times}
use go.Group.{
  Error, key_required, value_required, key_not_found, group_closed, Result, error, ok, SyncTask,
  Peers, Group, propagate, enqueue, note_key, admitted, sync_channel_buffer,
}
use go.Group.Methods.{store_view, get, set, delete}

module _ {V P : Type 0} (backend : Backend V) (as_view : V → Option ByteView)
    (of_view : ByteView → V) (peer_get : P → Bytes → Option Bytes)
    (getter : Bytes → Option Bytes) where
  -- The order of the guards of `Get`, `Set` and `Delete`: a closed group, then the empty key; and
  -- for `Get` a key that the filter denies, for `Set` an empty value. Each reports its error and
  -- leaves the group as it is: no load, no entry, no task.
  pub guards_first :
      (now : ℕ) (t : Times) (fp fm : Bool) (key value : Bytes) (g : Group backend.State P)
      → (g.closed ≡ true
          → (get backend as_view of_view peer_get getter now t key g ≡ some (error group_closed, g))
            × (set backend as_view of_view peer_get getter now t fp fm key value g
                ≡ some (some group_closed, g))
            × (delete backend as_view of_view peer_get getter fp fm key g ≡ (some group_closed, g)))
        × (g.closed ≡ false
            → key ≡ []
            → (get backend as_view of_view peer_get getter now t key g
                ≡ some (error key_required, g))
              × (set backend as_view of_view peer_get getter now t fp fm key value g
                  ≡ some (some key_required, g))
              × (delete backend as_view of_view peer_get getter fp fm key g
                  ≡ (some key_required, g)))
        × (g.closed ≡ false
            → key ≢ []
            → (admitted key g ≡ some false
                → get backend as_view of_view peer_get getter now t key g
                  ≡ some (error key_not_found, g))
              × (value ≡ []
                  → set backend as_view of_view peer_get getter now t fp fm key value g
                    ≡ some (some value_required, g)))
  unfolding get set delete
  guards_first now t fp fm key value g = (
    λ shut. (ground arith, ground arith, ground arith),
    λ open' blank. (
      ground (arith, bytes_beq_iff key []),
      ground (arith, bytes_beq_iff key []),
      ground (arith, bytes_beq_iff key []),
    ),
    λ open' named. (
      λ denied. ground (arith, bytes_beq_iff key []),
      λ blank. ground (arith, bytes_beq_iff key []),
    ),
  )

  propagate-filter :
      (fp fm : Bool) (task : SyncTask) (g : Group backend.State P)
      → (propagate fp fm task g).bloom_filter ≡ g.bloom_filter
  unfolding propagate
  propagate-filter fp fm task g = elim (Option-cases g.peers) [
    | inl alone ↦ ground arith
    | inr (peers, there) ↦ ground arith
  ]

  -- The filter after a key was noted, and so after an entry was stored.
  note_key-admitted :
      (key : Bytes) (bf : BloomFilter) (g : Group backend.State P)
      → g.bloom_filter ≡ some bf
      → IsValid bf
      → (g' : Group backend.State P) × (note_key key g ≡ some g')
        × ((bf' : BloomFilter) × (g'.bloom_filter ≡ some bf')
            × IsValid bf'
            × (Bloom.may_contain key bf' ≡ some true))
  unfolding note_key
  note_key-admitted key bf g there v =
      let (bf', added, a) = add-Added key bf v in
      (
        record g { bloom_filter = some bf' },
        ground arith,
        (bf', refl, a.valid, may_contain-of_Holds key bf' a.valid a.holds),
      )

  store_view-admitted :
      (now : ℕ) (t : Times) (key : Bytes) (view : ByteView) (bf : BloomFilter)
      (g : Group backend.State P)
      → g.bloom_filter ≡ some bf
      → IsValid bf
      → (g' : Group backend.State P) × (store_view backend as_view of_view peer_get getter now t key
            view g
          ≡ some g')
        × ((bf' : BloomFilter) × (g'.bloom_filter ≡ some bf')
            × IsValid bf'
            × (Bloom.may_contain key bf' ≡ some true))
  unfolding store_view
  store_view-admitted now t key view bf g there v = note_key-admitted key bf _ there v

  -- On a group with a well-formed filter that is open, `Set` of a key and a value that are not empty
  -- reports no error and does not panic, and the filter admits the key from then on, so that a later
  -- `Get` of it is not turned away.
  pub set-admitted :
      (now : ℕ) (t : Times) (fp fm : Bool) (key value : Bytes) (bf : BloomFilter)
      (g : Group backend.State P)
      → g.bloom_filter ≡ some bf
      → IsValid bf
      → g.closed ≡ false
      → key ≢ []
      → value ≢ []
      → (g' : Group backend.State P) × (set backend as_view of_view peer_get getter now t fp fm key
            value g
          ≡ some (none, g'))
        × (admitted key g' ≡ some true)
  unfolding set admitted
  set-admitted now t fp fm key value bf g there v open' named filled =
      let view : ByteView = record { b = value } in
      let (g', stored, (bf', has, _, may)) = store_view-admitted now t key view bf g there v in
      let task = go.Group.set_task key value in
      let kept = propagate-filter fp fm task g' in
      (
        propagate fp fm task g',
        ground (arith, bytes_beq_iff key [], some_bytes value filled),
        ground arith,
      )
    where
      some_bytes : (value : Bytes) → value ≢ [] → go.Common.nat_beq (length value) 0 ≡ false
      some_bytes [] e = absurd (e refl)
      some_bytes (x ∷ xs) e = ground arith

  enqueue-length :
      (task : SyncTask) (tasks : List SyncTask)
      → length tasks ≤ sync_channel_buffer
      → length (enqueue task tasks) ≤ sync_channel_buffer
  unfolding enqueue
  enqueue-length task tasks fits = ground (arith, length-append tasks (task ∷ []))

  propagate-length :
      (fp fm : Bool) (task : SyncTask) (g : Group backend.State P)
      → length g.sync_tasks ≤ sync_channel_buffer
      → length (propagate fp fm task g).sync_tasks ≤ sync_channel_buffer
  unfolding propagate
  propagate-length fp fm task g fits = elim (Option-cases g.peers) [
    | inl alone ↦ ground arith
    | inr (peers, there) ↦ ground (arith, enqueue-length task g.sync_tasks fits)
  ]

  pub quiet :
      (fp fm : Bool) (task : SyncTask) (g : Group backend.State P)
      → (fp ≡ true) ⊎ (fm ≡ true)
      → (propagate fp fm task g).sync_tasks ≡ g.sync_tasks
  unfolding propagate
  quiet fp fm task g from = elim (Option-cases g.peers) [
    | inl alone ↦ ground arith
    | inr (peers, there) ↦ ground arith
  ]

  -- `Delete` never blocks on the queue of tasks: it keeps at most as many as the channel holds; and
  -- for a request that comes from a peer or from a migration it adds none.
  pub delete-sync_tasks :
      (fp fm : Bool) (key : Bytes) (g : Group backend.State P)
      → length g.sync_tasks ≤ sync_channel_buffer
      → (length (delete backend as_view of_view peer_get getter fp fm key g).1.sync_tasks
          ≤ sync_channel_buffer)
        × ((fp ≡ true) ⊎ (fm ≡ true)
            → (delete backend as_view of_view peer_get getter fp fm key g).1.sync_tasks
              ≡ g.sync_tasks)
  unfolding delete
  delete-sync_tasks fp fm key g fits =
      let task = go.Group.broadcast_delete key in
      let c = (go.Cache.delete backend as_view of_view key g.main_cache).1 in
      let g' : Group backend.State P = record g { main_cache = c } in
      (
        ground (arith, propagate-length fp fm task g' fits),
        λ from. ground (arith, quiet fp fm task g' from),
      )
