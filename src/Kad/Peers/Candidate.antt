-- ===== src/Kad/Peers/Candidate.antt =====
-- Which node of a full bucket is replaced (`try_add_peer` of protocols/kad/src/kad.rs).
use libp2p_rs.Common.{
  ℕ, ◌≡◌, ◌≢◌, refl, subst, true, false, some, List, [], ◌∷◌, filter, All, All-filter, filter-holds,
  All-imp, Bool-cases, inl, inr, some_injective, none_not_some, arith, position, Option-cases,
}
use libp2p_rs.Kad.Bucket.{Node, KBucket, has_key}
use libp2p_rs.Kad.Bucket.Laws.{Distinct, value_in, position-none}
use libp2p_rs.Kad.Peers.{PeerInfo, is_older, is_replaceable, oldest_from, oldest, candidate}

oldest_from-All {κ} :
    (P : Node ℕ PeerInfo → Type κ) (best : Node ℕ PeerInfo) (ns : List (Node ℕ PeerInfo))
    → P best
    → All P ns
    → P (oldest_from best ns)
unfolding oldest_from
oldest_from-All P best [] h hs = h
oldest_from-All P best (n ∷ ns) h hs =
    elim (Bool-cases (is_older n.value.aliveness best.value.aliveness)) [
      | inl e ↦ rw (e, oldest_from) (oldest_from-All P n ns hs.0 hs.1)
      | inr e ↦ rw (e, oldest_from) (oldest_from-All P best ns h hs.1)
    ]

oldest-All {κ} :
    (P : Node ℕ PeerInfo → Type κ) (ns : List (Node ℕ PeerInfo)) (c : Node ℕ PeerInfo)
    → oldest ns ≡ some c
    → All P ns
    → P c
unfolding oldest
oldest-All P [] c e h = absurd (none_not_some c e)
oldest-All P (n ∷ ns) c e h =
    subst P (some_injective (oldest_from n ns) c e) (oldest_from-All P n ns h.0 h.1)

-- What holds of all nodes holds of the candidate.
pub candidate-All {κ} :
    (P : Node ℕ PeerInfo → Type κ) (now timeout : ℕ) (b : KBucket ℕ PeerInfo) (c : Node ℕ PeerInfo)
    → candidate now timeout b ≡ some c
    → All P b.nodes
    → P c
unfolding candidate
candidate-All P now timeout b c e h =
    oldest-All P (filter (is_replaceable now timeout) b.nodes) c e (All-filter P _ b.nodes h)

pub candidate-replaceable :
    (now timeout : ℕ) (b : KBucket ℕ PeerInfo) (c : Node ℕ PeerInfo)
    → candidate now timeout b ≡ some c
    → is_replaceable now timeout c ≡ true
unfolding candidate
candidate-replaceable now timeout b c e =
    oldest-All (λ n. is_replaceable now timeout n ≡ true) _ c e (filter-holds _ b.nodes)

pub candidate-position :
    (now timeout : ℕ) (b : KBucket ℕ PeerInfo) (c : Node ℕ PeerInfo)
    → candidate now timeout b ≡ some c
    → (p : ℕ) × (position (has_key c.key) b.nodes ≡ some p)
candidate-position now timeout b c e = elim (Option-cases (position (has_key c.key) b.nodes)) [
  | inl q ↦ absurd (
      candidate-All (λ n. n.key.bytes ≢ c.key.bytes) now timeout b c e
        (position-none c.key b.nodes q).0 refl)
  | inr s ↦ s
]

All-both {κ μ} :
    {A : Type 0} (P : A → Type κ) (Q : A → Type μ) (xs : List A)
    → All P xs
    → All Q xs
    → All (λ x. P x × Q x) xs
All-both P Q [] h g = tt
All-both P Q (x ∷ xs) h g = ((h.0, g.0), All-both P Q xs h.1 g.1)

values_found :
    (ns : List (Node ℕ PeerInfo)) → Distinct ns → All (λ n. value_in n.key ns ≡ some n.value) ns
values_found [] d = tt
values_found (m ∷ ms) d = (
  ground arith,
  All-imp _ _ (λ n h. ground (arith, h.0, h.1)) ms (All-both _ _ ms d.0 (values_found ms d.1)),
)

-- The candidate's value is the one that its key has in the bucket.
pub candidate-value :
    (now timeout : ℕ) (b : KBucket ℕ PeerInfo) (c : Node ℕ PeerInfo)
    → candidate now timeout b ≡ some c
    → Distinct b.nodes
    → value_in c.key b.nodes ≡ some c.value
candidate-value now timeout b c e d =
    candidate-All (λ n. value_in n.key b.nodes ≡ some n.value) now timeout b c e
      (values_found b.nodes d)

pub candidate-permanent :
    (now timeout : ℕ) (b : KBucket ℕ PeerInfo) (c : Node ℕ PeerInfo)
    → candidate now timeout b ≡ some c
    → c.value.permanent ≡ false
unfolding is_replaceable
candidate-permanent now timeout b c e = ground (arith, candidate-replaceable now timeout b c e)
