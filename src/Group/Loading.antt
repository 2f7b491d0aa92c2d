-- ===== src/Group/Loading.antt =====
-- Where `loadData` of group.go takes a value from: the answers in the order in which it asks, of
-- which the first one that is no error counts.
use go.Common.{
  ◌≡◌, refl, ap, Bool, true, false, not, ◌&&◌, inl, inr, Option, none, some, List, [], ◌∷◌,
  if◌then◌else◌, Bytes, Option-cases,
}
use go.ByteView.{ByteView}
use go.Store.Backend.{Backend}
use go.Picker.{Pick}
use go.Group.{Stats, failed, Result, error, ok, Peers, Group, plus_one}
use go.Group.Methods.{load_from_source, load_picked, load_peer, load_data}

abbrev pub first_answer : List (Option Bytes) → Option Bytes
first_answer [] = none
first_answer (none ∷ rest) = first_answer rest
first_answer (some answer ∷ rest) = some answer

abbrev pub or_else : Option Bytes → Option Bytes → Option Bytes
or_else none other = other
or_else (some x) other = some x

abbrev pub to_result : Option Bytes → Result
to_result none = error failed
to_result (some bytes) = ok (record { b = bytes })

module _ {V P : Type 0} (backend : Backend V) (as_view : V → Option ByteView)
    (of_view : ByteView → V) (peer_get : P → Bytes → Option Bytes)
    (getter : Bytes → Option Bytes) where
  abbrev G : Type 0
  G = Group backend.State P

  abbrev pub answer_of : Bytes → Option P → Option Bytes
  answer_of key none = none
  answer_of key (some peer) = peer_get peer key

  -- The answers of the peers that are asked for a key: of the primary and the replica of a picker
  -- with fallback, of the one peer of another picker, and of none where the key is this node's own.
  abbrev pub asked : Bytes → Option (Peers P) → List (Option Bytes)
  asked key none = []
  asked key (some peers) = elim peers.with_fallback [
    | some pick ↦
        if (pick key).ok && not (pick key).is_self
        then answer_of key (pick key).primary ∷ answer_of key (pick key).replica ∷ []
        else []
    | none ↦
        let (peer, found, itself) = peers.pick key in
        if found && not itself then answer_of key peer ∷ [] else []
  ]

  -- What a load adds to the two counters of successful loads.
  abbrev pub CountsAs : Option Bytes → Option Bytes → G → G → Type 0
  CountsAs (some _) _ g g' =
      (g'.stats.peer_hits ≡ plus_one g.stats.peer_hits)
      × (g'.stats.loader_hits ≡ g.stats.loader_hits)
  CountsAs none (some _) g g' =
      (g'.stats.peer_hits ≡ g.stats.peer_hits)
      × (g'.stats.loader_hits ≡ plus_one g.stats.loader_hits)
  CountsAs none none g g' =
      (g'.stats.peer_hits ≡ g.stats.peer_hits) × (g'.stats.loader_hits ≡ g.stats.loader_hits)

  -- A load that takes the first answer, or the source's where no peer gave one.
  abbrev pub TakesFirst : Bytes → Option Bytes → G → Result × G → Type 0
  TakesFirst key answer g (r, g') =
      (r ≡ to_result (or_else answer (getter key)))
      × (g' ≡ record g { stats = g'.stats })
      × CountsAs answer (getter key) g g'

  -- The end of a load that may have counted a peer's miss.
  load_from_source-TakesFirst :
      (key : Bytes) (s : Stats) (g : G)
      → s.peer_hits ≡ g.stats.peer_hits
      → s.loader_hits ≡ g.stats.loader_hits
      → TakesFirst key none g
          (load_from_source backend as_view of_view peer_get getter key (record g { stats = s }))
  unfolding load_from_source
  load_from_source-TakesFirst key s g e e' = elim (Option-cases (getter key)) [
    | inl fails ↦ rw (fails, load_from_source) (refl, refl, (e, e'))
    | inr (bytes, has) ↦ rw (has, load_from_source) (refl, refl, (e, ap plus_one e'))
  ]

  load_peer-TakesFirst :
      (key : Bytes) (peer : Option P) (found itself : Bool) (g : G)
      → TakesFirst key
          (first_answer (if found && not itself then answer_of key peer ∷ [] else []))
          g
          (load_peer backend as_view of_view peer_get getter key (peer, found, itself) g)
  unfolding load_peer
  load_peer-TakesFirst key peer false itself g = load_from_source-TakesFirst key g.stats g refl refl
  load_peer-TakesFirst key peer true true g = load_from_source-TakesFirst key g.stats g refl refl
  load_peer-TakesFirst key none true false g = load_from_source-TakesFirst key _ g refl refl
  load_peer-TakesFirst key (some peer) true false g = elim (Option-cases (peer_get peer key)) [
    | inl fails ↦ rw (fails, load_peer) (load_from_source-TakesFirst key _ g refl refl)
    | inr (bytes, has) ↦ rw (has, load_peer) (refl, refl, (refl, refl))
  ]

  -- The replica, where the primary gave nothing.
  load_replica-TakesFirst :
      (key : Bytes) (replica : Option P) (g : G)
      → TakesFirst key (first_answer (answer_of key replica ∷ [])) g (
          load_picked backend as_view of_view peer_get getter key
            (record { primary = none; replica = replica; ok = true; is_self = false })
            g)
  unfolding load_picked
  load_replica-TakesFirst key none g = load_from_source-TakesFirst key g.stats g refl refl
  load_replica-TakesFirst key (some peer) g = elim (Option-cases (peer_get peer key)) [
    | inl fails ↦ rw (fails, load_picked) (load_from_source-TakesFirst key g.stats g refl refl)
    | inr (bytes, has) ↦ rw (has, load_picked) (refl, refl, (refl, refl))
  ]

  load_asked-TakesFirst :
      (key : Bytes) (primary replica : Option P) (g : G)
      → TakesFirst key (first_answer (answer_of key primary ∷ answer_of key replica ∷ [])) g (
          load_picked backend as_view of_view peer_get getter key
            (record { primary = primary; replica = replica; ok = true; is_self = false })
            g)
  unfolding load_picked
  load_asked-TakesFirst key none replica g = load_replica-TakesFirst key replica g
  load_asked-TakesFirst key (some peer) replica g = elim (Option-cases (peer_get peer key)) [
    | inl fails ↦ rw (fails, load_picked) (load_replica-TakesFirst key replica g)
    | inr (bytes, has) ↦ rw (has, load_picked) (refl, refl, (refl, refl))
  ]

  load_picked-TakesFirst :
      (key : Bytes) (a b : Option P) (found itself : Bool) (g : G)
      → TakesFirst key
          (first_answer
            (if found && not itself then answer_of key a ∷ answer_of key b ∷ [] else []))
          g
          (load_picked backend as_view of_view peer_get getter key
            (record { primary = a; replica = b; ok = found; is_self = itself })
            g)
  unfolding load_picked
  load_picked-TakesFirst key a b true false g = load_asked-TakesFirst key a b g
  load_picked-TakesFirst key a b true true g = load_from_source-TakesFirst key g.stats g refl refl
  load_picked-TakesFirst key a b false itself g =
      load_from_source-TakesFirst key g.stats g refl refl

  load_with-TakesFirst :
      (key : Bytes) (f : Bytes → Option P × Bool × Bool) (w : Option (Bytes → Pick P))
      (all : Option (List P)) (g : G)
      → let peers : Option (Peers P) =
          some (record { pick = f; with_fallback = w; all_peers = all }) in
        TakesFirst key
          (first_answer (asked key peers))
          (record g { peers = peers })
          (load_data backend as_view of_view peer_get getter key (record g { peers = peers }))
  unfolding load_data
  load_with-TakesFirst key f (some pick) all g =
      let p = pick key in
      load_picked-TakesFirst key p.primary p.replica p.ok p.is_self (record g { peers = _ })
  load_with-TakesFirst key f none all g =
      let (peer, found, itself) = f key in
      load_peer-TakesFirst key peer found itself (record g { peers = _ })

  load_among-TakesFirst :
      (key : Bytes) (peers : Option (Peers P)) (g : G)
      → TakesFirst key
          (first_answer (asked key peers))
          (record g { peers = peers })
          (load_data backend as_view of_view peer_get getter key (record g { peers = peers }))
  unfolding load_data
  load_among-TakesFirst key none g =
      load_from_source-TakesFirst key g.stats (record g { peers = none }) refl refl
  load_among-TakesFirst key (some peers) g =
      load_with-TakesFirst key peers.pick peers.with_fallback peers.all_peers g

  -- A load takes the first value that the peers and then the data source give, in this order: the
  -- primary before the replica where the picker has a fallback, no peer where the key is this node's
  -- own, and the source only where no peer gave one. It fails where none of them gives a value. It
  -- changes nothing but counters, and adds one to the peers' hits or to the source's hits, as the
  -- value came from a peer or from the source, and to neither where it fails.
  pub load_data_lem :
      (key : Bytes) (g : G)
      → TakesFirst key
          (first_answer (asked key g.peers))
          g
          (load_data backend as_view of_view peer_get getter key g)
  load_data_lem key g = load_among-TakesFirst key g.peers g
