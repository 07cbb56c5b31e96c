-- ===== src/PeerStore/Gc.antt =====
-- `remove_expired_addrs` of core/src/peerstore.rs, peer by peer.
use libp2p_rs.Common.{
  ℕ, ◌≡◌, refl, ◌∙◌, Bool, true, false, inl, inr, Option, none, some, List, [], ◌∷◌, if◌then◌else◌,
  filter, contains, arith, Option-cases,
}
use libp2p_rs.Common.Map
use libp2p_rs.PeerStore.{
  AddrBookRecord, PeerRecord, PeerStore, is_live, sweep, is_empty, sweep_all, to_remove, remove_all,
  remove_expired_addrs,
}

-- A pinned peer stays as it is; another keeps its live addresses, and goes when it has none.
unfoldable pub collected : ℕ → PeerRecord → Option PeerRecord
collected now r = if r.pinned then some r else elim (filter (is_live now) r.addrs) [
  | [] ↦ none
  | a ∷ rest ↦ some (record r { addrs = a ∷ rest })
]

abbrev swept : ℕ → Option PeerRecord → Option PeerRecord
swept now none = none
swept now (some r) = some (sweep now r)

abbrev marked : Option PeerRecord → Bool
marked none = false
marked (some r) = is_empty r

get-sweep_all :
    (now peer : ℕ) (s : PeerStore) → Map.get peer (sweep_all now s) ≡ swept now (Map.get peer s)
unfolding Map.get sweep_all
get-sweep_all now peer [] = refl
get-sweep_all now peer ((p, r) ∷ s) = ground (arith, get-sweep_all now peer s)

get-remove_all :
    (peer : ℕ) (peers : List ℕ) (s : PeerStore)
    → Map.get peer (remove_all peers s) ≡ (if contains peer peers then none else Map.get peer s)
unfolding remove_all
get-remove_all peer [] s = refl
get-remove_all peer (p ∷ ps) s =
    ground (arith, get-remove_all peer ps (Map.remove p s), Map.get-remove peer p s)

missing-to_remove :
    (peer : ℕ) (s : PeerStore) → Map.get peer s ≡ none → contains peer (to_remove s) ≡ false
unfolding to_remove Map.get
missing-to_remove peer [] h = refl
missing-to_remove peer ((p, r) ∷ s) h = ground (arith, h, missing-to_remove peer s)

contains-to_remove :
    (peer : ℕ) (s : PeerStore) → Map.IsMap s → contains peer (to_remove s) ≡ marked (Map.get peer s)
unfolding to_remove Map.get Map.IsMap Map.contains_key
contains-to_remove peer [] m = refl
contains-to_remove peer ((p, r) ∷ s) m = elim (Option-cases (Map.get p s)) [
  | inl n ↦ ground (arith, n, contains-to_remove peer s m.1, missing-to_remove peer s)
  | inr (v, e) ↦ absurd (ground (arith, m.0, e))
]

sweep_all-IsMap : (now : ℕ) (s : PeerStore) → Map.IsMap s → Map.IsMap (sweep_all now s)
unfolding sweep_all Map.IsMap Map.contains_key
sweep_all-IsMap now [] m = tt
sweep_all-IsMap now ((p, r) ∷ s) m =
    (ground (arith, get-sweep_all now p s, m.0), sweep_all-IsMap now s m.1)

removed_or : PeerRecord → Option PeerRecord
removed_or r = if is_empty r then none else some r

-- The fields apart, to split on whether the peer is pinned.
emptied_parts :
    (now : ℕ) (pinned : Bool) (addrs : List AddrBookRecord) (key : Option ℕ) (protos : List ℕ)
    → let r : PeerRecord = record { pinned = pinned; addrs = addrs; key = key; protos = protos } in
      removed_or (sweep now r) ≡ collected now r
unfolding is_empty sweep collected removed_or
emptied_parts now true addrs key protos = refl
emptied_parts now false addrs key protos = by_addrs (filter (is_live now) addrs)
  where
    by_addrs :
        (kept : List AddrBookRecord)
        → let r : List AddrBookRecord → PeerRecord =
            λ a. record { pinned = false; addrs = a; key = key; protos = protos } in
          (if (elim kept [ [] ↦ true | a ∷ rest ↦ false ]) then none else some (r kept))
          ≡ elim kept [ [] ↦ none | a ∷ rest ↦ some (r (a ∷ rest)) ]
    by_addrs [] = refl
    by_addrs (a ∷ rest) = refl

-- On a store with one record for each peer, the removal of expired addresses leaves a pinned peer
-- as it is, keeps of another the addresses whose time to live has not passed, in their order, and
-- removes the peer when none is left.
pub remove_expired_addrs-get :
    (now peer : ℕ) (s : PeerStore)
    → Map.IsMap s
    → Map.get peer (remove_expired_addrs now s)
      ≡ elim (Map.get peer s) [ none ↦ none | some r ↦ collected now r ]
unfolding remove_expired_addrs removed_or
remove_expired_addrs-get now peer s m =
    get-remove_all peer (to_remove (sweep_all now s)) (sweep_all now s)
    ∙ rw
        (
          contains-to_remove peer (sweep_all now s) (sweep_all-IsMap now s m),
          get-sweep_all now peer s,
        )
        (by_entry (Map.get peer s))
  where
    by_entry :
        (o : Option PeerRecord)
        → (if marked (swept now o) then none else swept now o)
          ≡ elim o [ none ↦ none | some r ↦ collected now r ]
    by_entry none = refl
    by_entry (some r) = emptied_parts now r.pinned r.addrs r.key r.protos
