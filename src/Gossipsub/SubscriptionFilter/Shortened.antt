-- ===== src/Gossipsub/SubscriptionFilter/Shortened.antt =====
-- No filter of protocols/gossipsub/src/subscription_filter.rs follows more subscriptions than it is
-- given.
use libp2p_rs.Common.{
  ℕ, Bool, ◌+◌, ◌≤◌, ◌≡◌, refl, List, [], ◌∷◌, map, length, length-filter-le, Bool-cases,
  Option-cases, inl, inr, ltb, arith,
}
use libp2p_rs.Common.Map
use libp2p_rs.Gossipsub.SubscriptionFilter.{
  GossipsubSubscription, SubscriptionFilter, allow_all, whitelist, max_count, combined, callback,
  deduplicate_one, deduplicate, filter_deduplicated, limit_topics, filter_incoming_subscriptions,
  count,
}
use libp2p_rs.Gossipsub.SubscriptionFilter.Deduplicated.{
  Holds, then_Holds, set-Holds, limit_topics-Holds,
}

pub count-le :
    (p : GossipsubSubscription → Bool) (ss : List GossipsubSubscription) → count p ss ≤ length ss
unfolding count
count-le p ss = length-filter-le p ss

length-deduplicate_one-le :
    (m : List (ℕ × GossipsubSubscription)) (s : GossipsubSubscription)
    → length (deduplicate_one m s) ≤ 1 + length m
unfolding deduplicate_one
length-deduplicate_one-le m s = elim (Option-cases (Map.get s.topic_hash m)) [
  | inl e ↦ rw (e, deduplicate_one) (ground (arith, Map.length-insert s.topic_hash s m))
  | inr (old, e) ↦ rw (e, deduplicate_one) (ground (arith, Map.length-remove-le s.topic_hash m))
]

length-deduplicate-le :
    (m : List (ℕ × GossipsubSubscription)) (ss : List GossipsubSubscription)
    → length (deduplicate m ss) ≤ length m + length ss
unfolding deduplicate
length-deduplicate-le m [] = omega arith
length-deduplicate-le m (s ∷ ss) =
    omega (arith, length-deduplicate-le (deduplicate_one m s) ss, length-deduplicate_one-le m s)

length-values : (m : List (ℕ × GossipsubSubscription)) → length (map (λ e. e.1) m) ≡ length m
length-values [] = refl
length-values (e ∷ m) = omega (arith, length-values m)

-- No more subscriptions than `n`.
unfoldable pub IsShort : ℕ → List GossipsubSubscription → Type 0
IsShort n ss = length ss ≤ n

deduplicated-IsShort :
    (f : SubscriptionFilter) (ss : List GossipsubSubscription) (current : List ℕ)
    → Holds (IsShort (length ss)) (filter_deduplicated f ss current)
unfolding filter_deduplicated IsShort
deduplicated-IsShort f ss current =
    set-Holds (IsShort (length ss)) (λ p rs h. omega (arith, length-filter-le p rs, h)) f _ current
      (omega (arith, length-values (deduplicate [] ss), length-deduplicate-le [] ss))

pub incoming-IsShort :
    (f : SubscriptionFilter) (ss : List GossipsubSubscription) (current : List ℕ)
    → Holds (IsShort (length ss)) (filter_incoming_subscriptions f ss current)
unfolding filter_incoming_subscriptions Holds
incoming-IsShort allow_all ss current = deduplicated-IsShort allow_all ss current
incoming-IsShort (whitelist topics) ss current = deduplicated-IsShort (whitelist topics) ss current
incoming-IsShort (max_count f mt mr) ss current = elim (Bool-cases (ltb mr (length ss))) [
  | inl e ↦ rw (e, filter_incoming_subscriptions, Holds) tt
  | inr e ↦
      rw (e, filter_incoming_subscriptions)
        (then_Holds (IsShort (length ss)) (IsShort (length ss)) (limit_topics mt current)
          (filter_incoming_subscriptions f ss current)
          (λ r h. limit_topics-Holds (IsShort (length ss)) mt current r h)
          (incoming-IsShort f ss current))
]
incoming-IsShort (combined f g) ss current = deduplicated-IsShort (combined f g) ss current
incoming-IsShort (callback f) ss current = deduplicated-IsShort (callback f) ss current
