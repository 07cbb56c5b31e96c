-- ===== src/Gossipsub/SubscriptionFilter/Deduplicated.antt =====
-- The subscriptions that protocols/gossipsub/src/subscription_filter.rs follows: one for a topic, and
-- each of them allowed.
use libp2p_rs.Common.{
  ℕ, ◌≡◌, refl, sym, Bool, true, false, List, [], ◌∷◌, ◌==◌, filter, map, All, All-filter,
  filter-holds, Bool-cases, Option-cases, inl, inr, ltb, length, ◌+◌, ◌%◌, ◌^◌, arith,
}
use libp2p_rs.Common.Map
use libp2p_rs.Common.Map.{IsMap, contains_key}
use libp2p_rs.Gossipsub.SubscriptionFilter.{
  GossipsubSubscription, SubscriptionFilter, allow_all, whitelist, max_count, combined, callback,
  Filtered, followed, rejected, same_action, deduplicate_one, deduplicate, can_subscribe,
  retain_allowed, filter_incoming_subscription_set, filter_deduplicated, limit_topics,
  filter_incoming_subscriptions, count, is_unsubscribed, is_new_subscribed,
}

-- One subscription for a topic.
unfoldable pub OneEach : List GossipsubSubscription → Type 0
OneEach [] = Unit
OneEach (s ∷ ss) = All (λ r. (s.topic_hash == r.topic_hash) ≡ false) ss × OneEach ss

OneEach-filter :
    (p : GossipsubSubscription → Bool) (ss : List GossipsubSubscription)
    → OneEach ss
    → OneEach (filter p ss)
unfolding OneEach
OneEach-filter p [] h = tt
OneEach-filter p (s ∷ ss) h = elim (Bool-cases (p s)) [
  | inl e ↦ rw e (All-filter _ p ss h.0, OneEach-filter p ss h.1)
  | inr e ↦ rw e (OneEach-filter p ss h.1)
]

-- An entry stands under its topic.
abbrev AtTopic : ℕ × GossipsubSubscription → Type 0
AtTopic e = e.0 ≡ e.1.topic_hash

deduplicate_one-IsMap :
    (m : List (ℕ × GossipsubSubscription)) (s : GossipsubSubscription)
    → IsMap m × All AtTopic m
    → IsMap (deduplicate_one m s) × All AtTopic (deduplicate_one m s)
unfolding deduplicate_one
deduplicate_one-IsMap m s h = elim (Option-cases (Map.get s.topic_hash m)) [
  | inl e ↦
      rw (e, deduplicate_one)
        (Map.insert-IsMap s.topic_hash s m h.0, Map.All-insert AtTopic s.topic_hash s m refl h.1)
  | inr (old, e) ↦
      rw (e, deduplicate_one)
        (elim (Bool-cases (same_action old.action s.action)) [
          | inl t ↦ rw t h
          | inr f ↦
              rw f (Map.remove-IsMap s.topic_hash m h.0, Map.All-remove AtTopic s.topic_hash m h.1)
        ])
]

deduplicate-IsMap :
    (m : List (ℕ × GossipsubSubscription)) (ss : List GossipsubSubscription)
    → IsMap m × All AtTopic m
    → IsMap (deduplicate m ss) × All AtTopic (deduplicate m ss)
unfolding deduplicate
deduplicate-IsMap m [] h = h
deduplicate-IsMap m (s ∷ ss) h =
    deduplicate-IsMap (deduplicate_one m s) ss (deduplicate_one-IsMap m s h)

absent_topic :
    (t : ℕ) (m : List (ℕ × GossipsubSubscription))
    → contains_key t m ≡ false
    → All AtTopic m
    → All (λ r. (t == r.topic_hash) ≡ false) (map (λ e. e.1) m)
unfolding contains_key Map.get
absent_topic t [] h a = tt
absent_topic t ((k, s) ∷ m) h a = (ground (arith, h, a.0), absent_topic t m (ground (arith, h)) a.1)

values-OneEach :
    (m : List (ℕ × GossipsubSubscription)) → IsMap m → All AtTopic m → OneEach (map (λ e. e.1) m)
unfolding OneEach IsMap
values-OneEach [] h a = tt
values-OneEach ((k, s) ∷ m) h a =
    (rw (sym a.0) (absent_topic k m h.0 a.1), values-OneEach m h.1 a.1)

-- What holds of the subscriptions that are followed.
unfoldable pub Holds {κ} : (List GossipsubSubscription → Type κ) → Filtered → Type κ
Holds P (followed r) = P r
Holds P (rejected e) = Unit

pub then_Holds {κ μ} :
    (P : List GossipsubSubscription → Type κ) (Q : List GossipsubSubscription → Type μ)
    (next : List GossipsubSubscription → Filtered) (r : Filtered)
    → ((ss : List GossipsubSubscription) → P ss → Holds Q (next ss))
    → Holds P r
    → Holds Q (elim r [ followed ss ↦ next ss | rejected e ↦ rejected e ])
unfolding Holds
then_Holds P Q next (followed ss) g h = g ss h
then_Holds P Q next (rejected e) g h = tt

module _ {κ} (P : List GossipsubSubscription → Type κ) where
  -- What each retaining of subscriptions keeps, the filters keep.
  pub set-Holds :
      (keep : (p : GossipsubSubscription → Bool) (ss : List GossipsubSubscription)
        → P ss
        → P (filter p ss))
      (f : SubscriptionFilter) (ss : List GossipsubSubscription) (current : List ℕ)
      → P ss
      → Holds P (filter_incoming_subscription_set f ss current)
  unfolding Holds filter_incoming_subscription_set retain_allowed
  set-Holds keep allow_all ss current h = keep _ ss h
  set-Holds keep (whitelist topics) ss current h = keep _ ss h
  set-Holds keep (max_count f mt mr) ss current h = keep _ ss h
  set-Holds keep (combined f g) ss current h =
      then_Holds P P (λ mid. filter_incoming_subscription_set g mid current)
        (filter_incoming_subscription_set f ss current) (λ mid. set-Holds keep g mid current)
        (set-Holds keep f ss current h)
  set-Holds keep (callback f) ss current h = keep _ ss h

unfoldable pub IsAllowed : SubscriptionFilter → List GossipsubSubscription → Type 0
IsAllowed f ss = All (λ s. can_subscribe f s.topic_hash ≡ true) ss

Holds-both {κ μ} :
    (P : List GossipsubSubscription → Type κ) (Q : List GossipsubSubscription → Type μ)
    (r : Filtered)
    → Holds P r
    → Holds Q r
    → Holds (λ ss. P ss × Q ss) r
unfolding Holds
Holds-both P Q (followed ss) h g = (h, g)
Holds-both P Q (rejected e) h g = tt

Holds-imp {κ μ} :
    (P : List GossipsubSubscription → Type κ) (Q : List GossipsubSubscription → Type μ)
    (r : Filtered)
    → ((ss : List GossipsubSubscription) → P ss → Q ss)
    → Holds P r
    → Holds Q r
unfolding Holds
Holds-imp P Q (followed ss) f h = f ss h
Holds-imp P Q (rejected e) f h = tt

combined-IsAllowed :
    (f g : SubscriptionFilter) (ss : List GossipsubSubscription)
    → IsAllowed f ss
    → IsAllowed g ss
    → IsAllowed (combined f g) ss
unfolding IsAllowed can_subscribe
combined-IsAllowed f g [] h k = tt
combined-IsAllowed f g (s ∷ ss) h k = (ground (arith, h.0, k.0), combined-IsAllowed f g ss h.1 k.1)

set-IsAllowed :
    (f : SubscriptionFilter) (ss : List GossipsubSubscription) (current : List ℕ)
    → Holds (IsAllowed f) (filter_incoming_subscription_set f ss current)
unfolding Holds filter_incoming_subscription_set retain_allowed IsAllowed
set-IsAllowed allow_all ss current = filter-holds _ ss
set-IsAllowed (whitelist topics) ss current = filter-holds _ ss
set-IsAllowed (max_count f mt mr) ss current = filter-holds _ ss
set-IsAllowed (combined f g) ss current =
    then_Holds (IsAllowed f) (IsAllowed (combined f g))
      (λ mid. filter_incoming_subscription_set g mid current)
      (filter_incoming_subscription_set f ss current)
      (λ mid h.
        let r = filter_incoming_subscription_set g mid current in
        Holds-imp (λ ss. IsAllowed f ss × IsAllowed g ss) (IsAllowed (combined f g)) r
          (λ ss b. combined-IsAllowed f g ss b.0 b.1)
          (Holds-both (IsAllowed f) (IsAllowed g) r
            (set-Holds (IsAllowed f) (λ p ss. All-filter _ p ss) g mid current h)
            (set-IsAllowed g mid current)))
      (set-IsAllowed f ss current)
set-IsAllowed (callback f) ss current = filter-holds _ ss

-- One subscription for a topic, and each of them allowed.
unfoldable pub IsClean : SubscriptionFilter → List GossipsubSubscription → Type 0
IsClean f ss = OneEach ss × IsAllowed f ss

deduplicated-IsClean :
    (f : SubscriptionFilter) (ss : List GossipsubSubscription) (current : List ℕ)
    → Holds (IsClean f) (filter_deduplicated f ss current)
unfolding filter_deduplicated IsClean IsMap
deduplicated-IsClean f ss current =
    let m = deduplicate-IsMap [] ss (tt, tt) in
    Holds-both OneEach (IsAllowed f) (filter_deduplicated f ss current)
      (set-Holds OneEach OneEach-filter f _ current (values-OneEach (deduplicate [] ss) m.0 m.1))
      (set-IsAllowed f _ current)

pub limit_topics-Holds {κ} :
    (P : List GossipsubSubscription → Type κ) (mt : ℕ) (current : List ℕ)
    (ss : List GossipsubSubscription)
    → P ss
    → Holds P (limit_topics mt current ss)
unfolding limit_topics Holds
limit_topics-Holds P mt current ss h =
    elim (Bool-cases (
      ltb ((mt + count (is_unsubscribed current) ss) % 2 ^ 64)
        ((count (is_new_subscribed current) ss + length current) % 2 ^ 64))) [
          | inl e ↦ rw (e, limit_topics, Holds) tt
          | inr e ↦ rw (e, limit_topics, Holds) h
        ]

pub incoming-IsClean :
    (f : SubscriptionFilter) (ss : List GossipsubSubscription) (current : List ℕ)
    → Holds (IsClean f) (filter_incoming_subscriptions f ss current)
unfolding filter_incoming_subscriptions IsClean IsAllowed can_subscribe Holds
incoming-IsClean allow_all ss current = deduplicated-IsClean allow_all ss current
incoming-IsClean (whitelist topics) ss current = deduplicated-IsClean (whitelist topics) ss current
incoming-IsClean (max_count f mt mr) ss current = elim (Bool-cases (ltb mr (length ss))) [
  | inl e ↦ rw (e, filter_incoming_subscriptions, Holds) tt
  | inr e ↦
      rw (e, filter_incoming_subscriptions)
        (then_Holds (IsClean f) (IsClean (max_count f mt mr)) (limit_topics mt current)
          (filter_incoming_subscriptions f ss current)
          (λ r h. limit_topics-Holds (IsClean (max_count f mt mr)) mt current r h)
          (incoming-IsClean f ss current))
]
incoming-IsClean (combined f g) ss current = deduplicated-IsClean (combined f g) ss current
incoming-IsClean (callback f) ss current = deduplicated-IsClean (callback f) ss current
