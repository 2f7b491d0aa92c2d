-- ===== src/Server/Relay.antt =====
-- The marks of a request on their way from client.go to server.go, and what a relayed write does to
-- the group that receives it.
use go.Common.{
  ℕ, ◌≡◌, ◌≢◌, refl, Bool, true, false, Option, none, some, List, [], ◌∷◌, Bytes, bytes_eq,
  bytes_beq, bytes_beq_iff, arith, length, inl, inr, ◌⊎◌, Option-cases, Bool-cases, ◌∙◌, ap,
}
use go.Common.Map.{Map, lookup, insert, lookup-insert}
use go.ByteView.{ByteView}
use go.Store.Backend.{Backend, Times}
use go.Bloom.{BloomFilter}
use go.Bloom.Membership.{IsValid, add-Added}
use go.Metadata.{
  Pairs, are_plain, true_text, values_of, Metadata, Marks, from_peer_key, from_migration_key,
}
use go.Client.{propagate_context, set_request, delete_request}
use go.Group.{Error, Group, SyncTask, admitted, propagate}
use go.Group.Methods
use go.Group.Requests.{quiet}
use go.Server.{
  first_is, decorate_context, serve_set, serve_delete, set, delete, Failure, no_group, of_group,
}

both_read :
    (md : Metadata) (pairs : Pairs)
    → are_plain pairs ≡ true
    → decorate_context md (md.deliver pairs) ≡ (record {
      from_peer = first_is true_text (values_of from_peer_key pairs);
      from_migration = first_is true_text (values_of from_migration_key pairs);
    })
unfolding decorate_context go.Common.bytes_beq
both_read md pairs plain = rw (
  md.get-deliver pairs from_peer_key plain refl,
  md.get-deliver pairs from_migration_key plain refl,
)

marks-deliver :
    (md : Metadata) (p m : Bool)
    → decorate_context md
        (md.deliver (propagate_context (record { from_peer = p; from_migration = m })))
      ≡ (record { from_peer = p; from_migration = m })
unfolding decorate_context propagate_context go.Common.bytes_beq
marks-deliver md true true = both_read md _ refl
marks-deliver md true false = both_read md _ refl
marks-deliver md false true = both_read md _ refl
marks-deliver md false false = both_read md _ refl

-- What the server reads from the metadata of a call are the marks that the client put there.
pub decorate-propagate :
    (md : Metadata) (marks : Marks)
    → decorate_context md (md.deliver (propagate_context marks)) ≡ marks
decorate-propagate md marks = marks-deliver md marks.from_peer marks.from_migration

tasks_of : {S P : Type 0} → Option (Group S P) → List SyncTask
tasks_of none = []
tasks_of (some g) = g.sync_tasks

module _ {V P : Type 0} (backend : Backend V) (as_view : V → Option ByteView)
    (of_view : ByteView → V) (peer_get : P → Bytes → Option Bytes)
    (getter : Bytes → Option Bytes) where
  -- The queue of every group is the same in both tables.
  pub SameTasks : (groups after : Map Bytes (Group backend.State P)) → Type 0
  SameTasks groups after =
      (name : Bytes) → tasks_of (lookup name after) ≡ tasks_of (lookup name groups)

  insert-SameTasks :
      (group : Bytes) (g g' : Group backend.State P) (groups : Map Bytes (Group backend.State P))
      → lookup group groups ≡ some g
      → g'.sync_tasks ≡ g.sync_tasks
      → SameTasks groups (insert group g' groups)
  unfolding SameTasks tasks_of
  insert-SameTasks group g g' groups at same name = elim (Bool-cases (bytes_beq group name)) [
    | inl here ↦
        let found = lookup-insert group name g' groups in
        ground (arith, bytes_beq_iff group name, found, same)
    | inr there ↦ ground (arith, lookup-insert group name g' groups)
  ]

  store_view-tasks :
      (now : ℕ) (t : Times) (key : Bytes) (view : ByteView) (g g' : Group backend.State P)
      → Methods.store_view backend as_view of_view peer_get getter now t key view g ≡ some g'
      → g'.sync_tasks ≡ g.sync_tasks
  unfolding Methods.store_view go.Group.note_key
  store_view-tasks now t key view g g' stored = ground arith

  store_view-total :
      (now : ℕ) (t : Times) (key : Bytes) (view : ByteView) (g : Group backend.State P)
      → ((bf : BloomFilter) → g.bloom_filter ≡ some bf → IsValid bf)
      → Methods.store_view backend as_view of_view peer_get getter now t key view g ≢ none
  unfolding Methods.store_view go.Group.note_key
  store_view-total now t key view g v = elim (Option-cases g.bloom_filter) [
    | inl no_filter ↦ ground arith
    | inr (bf, there) ↦ let (bf', added, a) = add-Added key bf (v bf there) in ground arith
  ]

  set-total :
      (now : ℕ) (t : Times) (fp fm : Bool) (key value : Bytes) (g : Group backend.State P)
      → ((bf : BloomFilter) → g.bloom_filter ≡ some bf → IsValid bf)
      → Methods.set backend as_view of_view peer_get getter now t fp fm key value g ≢ none
  unfolding Methods.set
  set-total now t fp fm key value g v =
      ground (arith, store_view-total now t key (record { b = go.ByteView.clone_bytes value }) g v)

  -- A marked `Set` of a group ends with a group whose queue is the same.
  set-quiet :
      (now : ℕ) (t : Times) (fp fm : Bool) (key value : Bytes) (g g' : Group backend.State P)
      (e : Option Error)
      → (fp ≡ true) ⊎ (fm ≡ true)
      → Methods.set backend as_view of_view peer_get getter now t fp fm key value g ≡ some (e, g')
      → g'.sync_tasks ≡ g.sync_tasks
  unfolding Methods.set
  set-quiet now t fp fm key value g g' e from done =
      let view : ByteView = record { b = go.ByteView.clone_bytes value } in
      elim (Option-cases
        (Methods.store_view backend as_view of_view peer_get getter now t key view g)) [
          | inl panics ↦ ground arith
          | inr (kept, stored) ↦
              let task = go.Group.set_task key (go.ByteView.clone_bytes value) in
              ground (
                arith,
                store_view-tasks now t key view g kept stored,
                quiet backend as_view of_view peer_get getter fp fm task kept from,
              )
        ]

  delete-quiet :
      (fp fm : Bool) (key : Bytes) (g : Group backend.State P)
      → (fp ≡ true) ⊎ (fm ≡ true)
      → (Methods.delete backend as_view of_view peer_get getter fp fm key g).1.sync_tasks
        ≡ g.sync_tasks
  unfolding Methods.delete
  delete-quiet fp fm key g from =
      let task = go.Group.broadcast_delete key in
      let c = (go.Cache.delete backend as_view of_view key g.main_cache).1 in
      let g' : Group backend.State P = record g { main_cache = c } in
      ground (arith, quiet backend as_view of_view peer_get getter fp fm task g' from)

  -- Where every filter of the table is well-formed.
  unfoldable pub FiltersValid : Map Bytes (Group backend.State P) → Type 0
  FiltersValid groups =
      (name : Bytes) (g : Group backend.State P) (bf : BloomFilter)
      → lookup name groups ≡ some g
      → g.bloom_filter ≡ some bf
      → IsValid bf

  unchanged : (groups : Map Bytes (Group backend.State P)) → SameTasks groups groups
  unfolding SameTasks
  unchanged groups name = refl

  set-relayed :
      (now : ℕ) (t : Times) (marks : Marks) (group key value : Bytes)
      (groups : Map Bytes (Group backend.State P))
      → FiltersValid groups
      → (marks.from_peer ≡ true) ⊎ (marks.from_migration ≡ true)
      → (r : (Failure ⊎ Bytes) × Map Bytes (Group backend.State P)) × (set backend as_view of_view
            peer_get getter now t marks group key value groups
          ≡ some r)
        × SameTasks groups r.1
  unfolding set FiltersValid
  set-relayed now t marks group key value groups valid from =
      elim (Option-cases (lookup group groups)) [
        | inl no_such ↦ ((inl no_group, groups), ground arith, unchanged groups)
        | inr (g, found) ↦
            let fp = marks.from_peer in
            let fm = marks.from_migration in
            elim (Option-cases
              (Methods.set backend as_view of_view peer_get getter now t fp fm key value g)) [
                | inl panics ↦
                    absurd (set-total now t fp fm key value g (λ bf. valid group g bf found) panics)
                | inr ((e, g'), done) ↦
                    let same =
                      insert-SameTasks group g g' groups found
                        (set-quiet now t fp fm key value g g' e from done) in
                    elim (Option-cases e) [
                      | inl fine ↦ ((inr value, insert group g' groups), ground arith, same)
                      | inr (why, failed) ↦
                          ((inl (of_group why), insert group g' groups), ground arith, same)
                    ]
              ]
      ]

  delete-relayed :
      (marks : Marks) (group key : Bytes) (groups : Map Bytes (Group backend.State P))
      → (marks.from_peer ≡ true) ⊎ (marks.from_migration ≡ true)
      → SameTasks groups (delete backend as_view of_view peer_get getter marks group key groups).1
  unfolding delete SameTasks
  delete-relayed marks group key groups from name = elim (Option-cases (lookup group groups)) [
    | inl no_such ↦ ground arith
    | inr (g, found) ↦
        let fp = marks.from_peer in
        let fm = marks.from_migration in
        let (e, g') = Methods.delete backend as_view of_view peer_get getter fp fm key g in
        let same = insert-SameTasks group g g' groups found (delete-quiet fp fm key g from) in
        ground (arith, same name)
  ]

  -- A `Set` or a `Delete` that one node sends to another with a mark, be it the worker's or a
  -- migration's, is read there with the same mark, so that no group of the receiver queues a task of
  -- its own for it: writes are not passed on in circles. The `Set` does not panic either, where the
  -- receiver's filters are well-formed.
  pub relay-quiet :
      (md : Metadata) (now : ℕ) (t : Times) (marks : Marks) (group key value : Bytes)
      (groups : Map Bytes (Group backend.State P))
      → FiltersValid groups
      → (marks.from_peer ≡ true) ⊎ (marks.from_migration ≡ true)
      → ((r : (Failure ⊎ Bytes) × Map Bytes (Group backend.State P)) × (serve_set backend as_view
              of_view peer_get getter md now t
              (set_request marks group key value)
              groups
            ≡ some r)
          × SameTasks groups r.1)
        × SameTasks groups
            (serve_delete backend as_view of_view peer_get getter md
              (delete_request marks group key)
              groups).1
  unfolding serve_set serve_delete set_request delete_request
  relay-quiet md now t marks group key value groups valid from = rw (decorate-propagate md marks) (
    set-relayed now t marks group key value groups valid from,
    delete-relayed marks group key groups from,
  )
