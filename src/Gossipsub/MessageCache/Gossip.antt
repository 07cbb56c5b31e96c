-- ===== src/Gossipsub/MessageCache/Gossip.antt =====
-- The identifiers that protocols/gossipsub/src/mcache.rs gives for gossip.
use libp2p_rs.Common.{
  ℕ, ◌≤◌, ◌≡◌, refl, ap, Bool, true, false, ◌&&◌, ◌||◌, inl, inr, some, List, [], ◌∷◌, ◌++◌, ◌==◌,
  if◌then◌else◌, length, take, contains, arith, Bool-cases, le→ltb, ==_iff, sym,
}
use libp2p_rs.Gossipsub.MessageCache.{
  CacheEntry, MessageCache, is_validated, gossip_of, gossip_of_all, get_gossip_message_ids,
}

-- Whether one of the slots has the identifier under the topic.
unfoldable pub in_topic : (id topic : ℕ) → List CacheEntry → Bool
in_topic id topic [] = false
in_topic id topic (e ∷ es) =
    if (id == e.mid) && (e.topic == topic) then true else in_topic id topic es

unfoldable pub in_topic_any : (id topic : ℕ) → List (List CacheEntry) → Bool
in_topic_any id topic [] = false
in_topic_any id topic (slot ∷ slots) = in_topic id topic slot || in_topic_any id topic slots

contains-append :
    (id : ℕ) (xs ys : List ℕ) → contains id (xs ++ ys) ≡ (contains id xs || contains id ys)
contains-append id [] ys = refl
contains-append id (x ∷ xs) ys = ground (arith, contains-append id xs ys)

same_validated :
    (id mid : ℕ) (c : MessageCache) → (id == mid) ≡ true → is_validated mid c ≡ is_validated id c
same_validated id mid c t = ap (λ i. is_validated i c) (sym ((==_iff id mid).0 t))

contains-gossip_of :
    (id topic : ℕ) (c : MessageCache) (es : List CacheEntry)
    → contains id (gossip_of topic c es) ≡ (in_topic id topic es && is_validated id c)
unfolding gossip_of in_topic
contains-gossip_of id topic c [] = refl
contains-gossip_of id topic c (e ∷ es) = elim (Bool-cases (id == e.mid)) [
  | inl t ↦ ground (arith, t, same_validated id e.mid c t, contains-gossip_of id topic c es)
  | inr f ↦ ground (arith, f, contains-gossip_of id topic c es)
]

contains-gossip_of_all :
    (id topic : ℕ) (c : MessageCache) (slots : List (List CacheEntry))
    → contains id (gossip_of_all topic c slots) ≡ (in_topic_any id topic slots && is_validated id c)
unfolding gossip_of_all in_topic_any
contains-gossip_of_all id topic c [] = refl
contains-gossip_of_all id topic c (slot ∷ slots) = ground (
  arith,
  contains-append id (gossip_of topic c slot) (gossip_of_all topic c slots),
  contains-gossip_of id topic c slot,
  contains-gossip_of_all id topic c slots,
)

-- When the slots for gossip are within the history, the identifiers for a topic are given without
-- a panic, and an identifier is among them exactly when one of the slots for gossip has it under
-- the topic and its message is cached and validated.
pub get_gossip_message_ids-contains :
    (topic : ℕ) (c : MessageCache)
    → c.gossip ≤ length c.history
    → (ids : List ℕ) × ((get_gossip_message_ids topic c ≡ some ids)
        × ((id : ℕ)
            → contains id ids
              ≡ (in_topic_any id topic (take c.gossip c.history) && is_validated id c)))
unfolding get_gossip_message_ids
get_gossip_message_ids-contains topic c l = (
  gossip_of_all topic c (take c.gossip c.history),
  (
    rw (le→ltb (length c.history) c.gossip l) refl,
    λ id. contains-gossip_of_all id topic c (take c.gossip c.history),
  ),
)
