-- ===== src/Picker/Migration/Destinations.antt =====
-- Where `MigrateDataAway` of cache/peers.go sends the keys of a group.
use go.Common.{
  ◌≡◌, ◌≢◌, refl, sym, ◌∙◌, false, not, List, [], ◌∷◌, ◌++◌, if◌then◌else◌, Bytes, ◌==◌, bytes_eq,
  nat_beq, ◌&&◌, ◌||◌, bytes_beq, bytes_beq_iff, contains, length, Bool-cases, ◌⊎◌, inl, inr, arith,
}
use go.Common.Map.{Map, lookup, insert, lookup-insert}
use mathlib.Core.Option
use mathlib.Core.List.{append-nil, append_assoc}
use go.ConsistentHash.Sorting.{IsSorted}
use go.ConsistentHash.Ring.{Ring}
use go.ConsistentHash.Route.{get_n}
use go.ConsistentHash.Route.Walk.{Distinct}
use go.ConsistentHash.Route.Nodes.{get_n-Picks}
use go.Picker.{Picker}
use go.Picker.Migration.{note_dests, dest_keys}

-- The keys noted for a destination.
abbrev pub noted : Bytes → Map Bytes (List Bytes) → List Bytes
noted dest m = Option.get_or (lookup dest m) []

-- The keys of which the node is one of the two owners, in their order.
pub owned_by : Bytes → Ring → List Bytes → List Bytes
owned_by dest r [] = []
owned_by dest r (key ∷ ks) =
    let rest = owned_by dest r ks in if contains (get_n key 2 r) dest then key ∷ rest else rest

module _ (self key dest : Bytes) where
  -- One round of the loop over a key's nodes.
  abbrev noted_once : Bytes → Map Bytes (List Bytes) → Map Bytes (List Bytes)
  noted_once x m =
      if not (x == []) && not (x == self) then insert x (noted x m ++ key ∷ []) m else m

  noted_once-noted :
      (x : Bytes) (m : Map Bytes (List Bytes))
      → dest ≢ []
      → dest ≢ self
      → noted dest (noted_once x m)
        ≡ (if bytes_beq x dest then noted dest m ++ key ∷ [] else noted dest m)
  noted_once-noted x m named other = ground (
    arith,
    lookup-insert x dest (noted x m ++ key ∷ []) m,
    bytes_beq_iff x dest,
    bytes_beq_iff x [],
    bytes_beq_iff x self,
  )

  noted_once-refused :
      (x : Bytes) (m : Map Bytes (List Bytes))
      → (dest ≡ []) ⊎ (dest ≡ self)
      → noted dest (noted_once x m) ≡ noted dest m
  noted_once-refused x m out = ground (
    arith,
    lookup-insert x dest (noted x m ++ key ∷ []) m,
    bytes_beq_iff x dest,
    bytes_beq_iff x [],
    bytes_beq_iff x self,
  )

  note_dests-refused :
      (nodes : List Bytes) (m : Map Bytes (List Bytes))
      → (dest ≡ []) ⊎ (dest ≡ self)
      → noted dest (note_dests self key nodes m) ≡ noted dest m
  unfolding note_dests
  note_dests-refused [] m out = refl
  note_dests-refused (x ∷ nodes) m out =
      note_dests-refused nodes (noted_once x m) out ∙ noted_once-refused x m out

  note_dests-skipped :
      (nodes : List Bytes) (m : Map Bytes (List Bytes))
      → dest ≢ []
      → dest ≢ self
      → Distinct nodes
      → noted dest (note_dests self key nodes m)
        ≡ (if contains nodes dest then noted dest m ++ key ∷ [] else noted dest m)
  unfolding note_dests contains
  note_dests-skipped [] m named other d = refl
  note_dests-skipped (x ∷ nodes) m named other d = ground (
    arith,
    note_dests-skipped nodes (noted_once x m) named other d.1,
    noted_once-noted x m named other,
    d.0,
    bytes_beq_iff x dest,
  )

get_n-Distinct : (key : Bytes) (r : Ring) → IsSorted r.hashes → Distinct (get_n key 2 r)
unfolding get_n
get_n-Distinct key r sorted =
    elim (Bool-cases (bytes_beq key [] || false || nat_beq (length r.hashes) 0)) [
      | inl nothing ↦ rw nothing tt
      | inr more ↦
          let p =
            get_n-Picks key 2 r sorted (ground arith) (ground (arith, bytes_beq_iff key []))
              (omega arith) in
          p.distinct
    ]

module _ {P : Type 0} (dest : Bytes) (p : Picker P) where
  dest_keys-noted :
      (ks : List Bytes) (m : Map Bytes (List Bytes))
      → IsSorted p.cons_hash.hashes
      → dest ≢ []
      → dest ≢ p.self_addr
      → noted dest (dest_keys p ks m) ≡ noted dest m ++ owned_by dest p.cons_hash ks
  unfolding dest_keys owned_by
  dest_keys-noted [] m sorted named other = sym (append-nil (noted dest m))
  dest_keys-noted (key ∷ ks) m sorted named other =
      let nodes = get_n key 2 p.cons_hash in
      ground (
        arith,
        dest_keys-noted ks (note_dests p.self_addr key nodes m) sorted named other,
        note_dests-skipped p.self_addr key dest nodes m named other
            (get_n-Distinct key p.cons_hash sorted),
        append_assoc (noted dest m) (key ∷ []) (owned_by dest p.cons_hash ks),
      )

  dest_keys-refused :
      (ks : List Bytes) (m : Map Bytes (List Bytes))
      → (dest ≡ []) ⊎ (dest ≡ p.self_addr)
      → noted dest (dest_keys p ks m) ≡ noted dest m
  unfolding dest_keys
  dest_keys-refused [] m out = refl
  dest_keys-refused (key ∷ ks) m out =
      let nodes = get_n key 2 p.cons_hash in
      dest_keys-refused ks (note_dests p.self_addr key nodes m) out
      ∙ note_dests-refused p.self_addr key dest nodes m out

  -- On a sorted ring, the keys that `MigrateDataAway` notes for another node are those of which it is
  -- one of the two owners, each as often as the group lists it and in that order; for this node, and
  -- for the empty address, it notes none.
  pub dest_keys-owned_by :
      (ks : List Bytes)
      → IsSorted p.cons_hash.hashes
      → (dest ≢ []
          → dest ≢ p.self_addr
          → noted dest (dest_keys p ks []) ≡ owned_by dest p.cons_hash ks)
        × ((dest ≡ []) ⊎ (dest ≡ p.self_addr) → noted dest (dest_keys p ks []) ≡ [])
  unfolding lookup
  dest_keys-owned_by ks sorted =
      (λ named other. dest_keys-noted ks [] sorted named other, λ out. dest_keys-refused ks [] out)
