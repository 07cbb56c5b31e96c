-- ===== src/Kad/Peers/Oldest.antt =====
-- The node of a full bucket that is replaced is the oldest (`try_add_peer` of protocols/kad/src/kad.rs).
use libp2p_rs.Common.{
  ℕ, suc, get_elem?, ◌+◌, ◌≤◌, ◌<◌, ◌≡◌, refl, not, ◌⊎◌, sym, ◌∙◌, ap, subst, Bool, true, false,
  Option, none, some, List, [], ◌∷◌, ◌&&◌, if◌then◌else◌, filter, All, All-imp, Bool-cases, inl,
  inr, some_injective, none_not_some, true≢false, arith, Option-cases,
}
use libp2p_rs.Kad.Bucket.{Node, KBucket}
use libp2p_rs.Kad.Peers.Candidate.{candidate-replaceable, candidate-All}
use libp2p_rs.Kad.Peers.{
  PeerInfo, is_older, is_replaceable, oldest_from, oldest, is_outdated, candidate,
}

older_trans :
    (a b c : Option ℕ) → is_older b a ≡ false → is_older c b ≡ false → is_older c a ≡ false
unfolding is_older
older_trans none none none h g = refl
older_trans none none (some c) h g = refl
older_trans none (some b) none h g = absurd (true≢false g)
older_trans none (some b) (some c) h g = refl
older_trans (some a) none none h g = h
older_trans (some a) none (some c) h g = absurd (true≢false h)
older_trans (some a) (some b) none h g = g
older_trans (some a) (some b) (some c) h g = ground (arith, h, g)

older_total : (a b : Option ℕ) → is_older a b ≡ true → is_older b a ≡ false
unfolding is_older
older_total none none h = refl
older_total none (some b) h = refl
older_total (some a) none h = absurd (true≢false (sym h))
older_total (some a) (some b) h = ground (arith, h)

older_same : (a : Option ℕ) → is_older a a ≡ false
unfolding is_older
older_same none = refl
older_same (some a) = ground arith

abbrev NotOlder : Node ℕ PeerInfo → Node ℕ PeerInfo → Type 0
NotOlder c n = is_older n.value.aliveness c.value.aliveness ≡ false

older_of : Node ℕ PeerInfo → Node ℕ PeerInfo → Node ℕ PeerInfo
older_of best n = if is_older n.value.aliveness best.value.aliveness then n else best

older_of-lem :
    (best n : Node ℕ PeerInfo) → NotOlder (older_of best n) best × NotOlder (older_of best n) n
unfolding older_of
older_of-lem best n = elim (Bool-cases (is_older n.value.aliveness best.value.aliveness)) [
  | inl e ↦
      rw e (older_total n.value.aliveness best.value.aliveness e, older_same n.value.aliveness)
  | inr e ↦ rw e (older_same best.value.aliveness, e)
]

oldest_from-lem :
    (best : Node ℕ PeerInfo) (ns : List (Node ℕ PeerInfo))
    → NotOlder (oldest_from best ns) best × All (NotOlder (oldest_from best ns)) ns
unfolding oldest_from older_of
oldest_from-lem best [] = (older_same best.value.aliveness, tt)
oldest_from-lem best (n ∷ ns) =
    let c = (oldest_from (older_of best n) ns).value.aliveness in
    let r = oldest_from-lem (older_of best n) ns in
    let q = older_of-lem best n in
    let m = (older_of best n).value.aliveness in
    (older_trans c m best.value.aliveness r.0 q.0, (older_trans c m n.value.aliveness r.0 q.1, r.1))

-- Permanent, or seen alive within the interval.
unfoldable pub IsFresh : (now timeout : ℕ) → PeerInfo → Type 0
IsFresh now timeout info =
    (info.permanent ≡ true) ⊎ ((a : ℕ) × ((info.aliveness ≡ some a) × (now ≤ a + timeout)))

-- Not permanent, and never seen alive or not within the interval.
unfoldable pub IsStale : (now timeout : ℕ) → PeerInfo → Type 0
IsStale now timeout info =
    (info.permanent ≡ false)
    × ((info.aliveness ≡ none) ⊎ ((a : ℕ) × ((info.aliveness ≡ some a) × (a + timeout < now))))

-- The first was never seen alive, or both were and the first not later.
unfoldable pub IsNotLater : PeerInfo → PeerInfo → Type 0
IsNotLater c n =
    (c.aliveness ≡ none)
    ⊎ ((a b : ℕ) × ((c.aliveness ≡ some a) × ((n.aliveness ≡ some b) × (a ≤ b))))

-- Either every node is fresh, or one of them is stale, and each is fresh or was not seen before it.
unfoldable pub IsOldest :
    (now timeout : ℕ) → List (Node ℕ PeerInfo) → Option (Node ℕ PeerInfo) → Type 0
IsOldest now timeout ns none = All (λ n. IsFresh now timeout n.value) ns
IsOldest now timeout ns (some c) =
    ((i : ℕ) × (get_elem? ns i ≡ some c))
    × (IsStale now timeout c.value
        × All (λ n. IsFresh now timeout n.value ⊎ IsNotLater c.value n.value) ns)

IsFresh-of :
    (now timeout : ℕ) (permanent : Bool) (a : Option ℕ) (added_at : ℕ)
    → (not permanent && is_outdated now timeout a) ≡ false
    → IsFresh now timeout (record { aliveness = a; added_at = added_at; permanent = permanent })
unfolding IsFresh is_outdated
IsFresh-of now timeout true a t h = inl refl
IsFresh-of now timeout false none t h = absurd (true≢false h)
IsFresh-of now timeout false (some a) t h = inr (a, (refl, ground (arith, h)))

IsStale-of :
    (now timeout : ℕ) (permanent : Bool) (a : Option ℕ) (added_at : ℕ)
    → (not permanent && is_outdated now timeout a) ≡ true
    → IsStale now timeout (record { aliveness = a; added_at = added_at; permanent = permanent })
unfolding IsStale is_outdated
IsStale-of now timeout true a t h = absurd (true≢false (sym h))
IsStale-of now timeout false none t h = (refl, inl refl)
IsStale-of now timeout false (some a) t h = (refl, inr (a, (refl, ground (arith, h))))

IsNotLater-of :
    (c n : Option ℕ) (added_c added_n : ℕ) (permanent_c permanent_n : Bool)
    → is_older n c ≡ false
    → IsNotLater
        (record { aliveness = c; added_at = added_c; permanent = permanent_c })
        (record { aliveness = n; added_at = added_n; permanent = permanent_n })
unfolding IsNotLater is_older
IsNotLater-of none n t u p q h = inl refl
IsNotLater-of (some a) none t u p q h = absurd (true≢false h)
IsNotLater-of (some a) (some b) t u p q h = inr (a, b, (refl, (refl, ground (arith, h))))

module _ (p : Node ℕ PeerInfo → Bool) where
  filter_here :
      (n : Node ℕ PeerInfo) (ns : List (Node ℕ PeerInfo))
      → p n ≡ true
      → filter p (n ∷ ns) ≡ n ∷ filter p ns
  filter_here n ns e = rw e refl

  filter_past :
      (n : Node ℕ PeerInfo) (ns : List (Node ℕ PeerInfo))
      → p n ≡ false
      → filter p (n ∷ ns) ≡ filter p ns
  filter_past n ns e = rw e refl

  none_left :
      (ns : List (Node ℕ PeerInfo)) → oldest (filter p ns) ≡ none → All (λ n. p n ≡ false) ns
  unfolding oldest
  none_left [] e = tt
  none_left (n ∷ ns) e = elim (Bool-cases (p n)) [
    | inl h ↦
        absurd
          (none_not_some (oldest_from n (filter p ns)) (sym e ∙ ap oldest (filter_here n ns h)))
    | inr h ↦ (h, none_left ns (sym (ap oldest (filter_past n ns h)) ∙ e))
  ]

  All-unfilter {κ} :
      (P : Node ℕ PeerInfo → Type κ) (ns : List (Node ℕ PeerInfo))
      → ((n : Node ℕ PeerInfo) → p n ≡ false → P n)
      → All P (filter p ns)
      → All P ns
  All-unfilter P [] f h = tt
  All-unfilter P (n ∷ ns) f h = elim (Bool-cases (p n)) [
    | inl e ↦
        let both = subst (All P) (filter_here n ns e) h in (both.0, All-unfilter P ns f both.1)
    | inr e ↦ (f n e, All-unfilter P ns f (subst (All P) (filter_past n ns e) h))
  ]

oldest-lem :
    (ns : List (Node ℕ PeerInfo)) (c : Node ℕ PeerInfo) → oldest ns ≡ some c → All (NotOlder c) ns
unfolding oldest
oldest-lem [] c e = absurd (none_not_some c e)
oldest-lem (n ∷ ns) c e =
    subst (λ d. All (NotOlder d) (n ∷ ns)) (some_injective (oldest_from n ns) c e)
      (oldest_from-lem n ns)

All-found : (ns : List (Node ℕ PeerInfo)) → All (λ n. (i : ℕ) × (get_elem? ns i ≡ some n)) ns
All-found [] = tt
All-found (n ∷ ns) = ((0, refl), All-imp _ _ (λ m h. (suc h.0, h.1)) ns (All-found ns))

module _ (now timeout : ℕ) where
  IsFresh-node :
      (n : Node ℕ PeerInfo) → is_replaceable now timeout n ≡ false → IsFresh now timeout n.value
  unfolding is_replaceable
  IsFresh-node n h = IsFresh-of now timeout n.value.permanent n.value.aliveness n.value.added_at h

  IsNotLater-node : (c n : Node ℕ PeerInfo) → NotOlder c n → IsNotLater c.value n.value
  IsNotLater-node c n h =
      IsNotLater-of c.value.aliveness n.value.aliveness c.value.added_at n.value.added_at
        c.value.permanent n.value.permanent h

  -- When a bucket is asked for a node to replace, it names none only if each node is permanent or
  -- was alive within the interval, and otherwise one of its nodes that is neither and than which no
  -- other such node was seen alive longer ago, where never counts as the longest.
  pub candidate-IsOldest :
      (b : KBucket ℕ PeerInfo) → IsOldest now timeout b.nodes (candidate now timeout b)
  unfolding IsOldest candidate is_replaceable
  candidate-IsOldest b = elim (Option-cases (candidate now timeout b)) [
    | inl e ↦ rw (e, IsOldest) (All-imp _ _ IsFresh-node b.nodes (none_left _ b.nodes e))
    | inr (c, e) ↦
        rw (e, IsOldest)
          (
            candidate-All (λ n. (i : ℕ) × (get_elem? b.nodes i ≡ some n)) now timeout b c e
                (All-found b.nodes),
            (
              IsStale-of now timeout c.value.permanent c.value.aliveness c.value.added_at
                  (candidate-replaceable now timeout b c e),
              All-unfilter (is_replaceable now timeout) _ b.nodes (λ n f. inl (IsFresh-node n f))
                  (All-imp _ _ (λ n h. inr (IsNotLater-node c n h)) _ (oldest-lem _ c e)),
            ),
          )
  ]
