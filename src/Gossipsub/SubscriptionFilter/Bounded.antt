-- ===== src/Gossipsub/SubscriptionFilter/Bounded.antt =====
-- How many topics a peer has after the subscriptions that protocols/gossipsub/src/subscription_filter.rs
-- follows.
use libp2p_rs.Common.{
  ℕ, suc, ◌+◌, ◌≤◌, ◌<◌, ◌%◌, ◌^◌, ◌≡◌, refl, ◌∙◌, subst, Bool, false, List, [], ◌∷◌, ◌==◌,
  if◌then◌else◌, All, Bool-cases, inl, inr, ◌⊎◌, ltb, length, contains, ltb→lt, ltb_false→le, arith,
}
use libp2p_rs.Gossipsub.SubscriptionFilter.{
  SubscriptionAction, subscribe, unsubscribe, GossipsubSubscription, SubscriptionFilter, max_count,
  FilterError, Filtered, followed, rejected, limit_topics, filter_incoming_subscriptions, count,
  is_leaving, is_entering, follow_action, is_unsubscribed, is_new_subscribed, subscribe_topic,
  unsubscribe_topic, follow, follow_all,
}
use libp2p_rs.Gossipsub.SubscriptionFilter.Deduplicated.{OneEach, Holds, IsClean, incoming-IsClean}
use libp2p_rs.Gossipsub.SubscriptionFilter.Shortened.{count-le, IsShort, incoming-IsShort}

-- A set of topics.
unfoldable pub IsTopicSet : List ℕ → Type 0
IsTopicSet [] = Unit
IsTopicSet (t ∷ ts) = (contains t ts ≡ false) × IsTopicSet ts

contains-unsubscribe_topic :
    (j t : ℕ) (ts : List ℕ)
    → contains j (unsubscribe_topic t ts) ≡ (if t == j then false else contains j ts)
unfolding unsubscribe_topic
contains-unsubscribe_topic j t [] = ground arith
contains-unsubscribe_topic j t (x ∷ ts) = ground (arith, contains-unsubscribe_topic j t ts)

unsubscribe_topic-IsTopicSet :
    (t : ℕ) (ts : List ℕ) → IsTopicSet ts → IsTopicSet (unsubscribe_topic t ts)
unfolding IsTopicSet unsubscribe_topic
unsubscribe_topic-IsTopicSet t [] h = tt
unsubscribe_topic-IsTopicSet t (x ∷ ts) h = elim (Bool-cases (t == x)) [
  | inl e ↦ rw e (unsubscribe_topic-IsTopicSet t ts h.1)
  | inr e ↦ rw e (
    ground (arith, contains-unsubscribe_topic x t ts, h.0),
    unsubscribe_topic-IsTopicSet t ts h.1,
  )
]

action-IsTopicSet :
    (a : SubscriptionAction) (t : ℕ) (ts : List ℕ)
    → IsTopicSet ts
    → IsTopicSet (follow_action a t ts)
unfolding follow_action subscribe_topic IsTopicSet
action-IsTopicSet subscribe t ts h = elim (Bool-cases (contains t ts)) [
  | inl e ↦ rw e h
  | inr e ↦ rw e (e, h)
]
action-IsTopicSet unsubscribe t ts h = unsubscribe_topic-IsTopicSet t ts h

-- Another topic is not touched.
contains-follow_action :
    (a : SubscriptionAction) (j t : ℕ) (ts : List ℕ)
    → (t == j) ≡ false
    → contains j (follow_action a t ts) ≡ contains j ts
unfolding follow_action subscribe_topic
contains-follow_action subscribe j t ts h = ground (arith, h)
contains-follow_action unsubscribe j t ts h = contains-unsubscribe_topic j t ts ∙ rw h refl

length-unsubscribe_topic :
    (t : ℕ) (ts : List ℕ)
    → IsTopicSet ts
    → length ts ≡ (
        if contains t ts
        then suc (length (unsubscribe_topic t ts))
        else length (unsubscribe_topic t ts))
unfolding IsTopicSet unsubscribe_topic
length-unsubscribe_topic t [] h = refl
length-unsubscribe_topic t (x ∷ ts) h = ground (arith, h, length-unsubscribe_topic t ts h.1)

-- How one subscription changes the number of topics.
length-follow_action :
    (a : SubscriptionAction) (t : ℕ) (ts : List ℕ)
    → IsTopicSet ts
    → length (follow_action a t ts) + (if is_leaving a (contains t ts) then 1 else 0)
      ≡ length ts + (if is_entering a (contains t ts) then 1 else 0)
unfolding follow_action subscribe_topic is_leaving is_entering
length-follow_action subscribe t ts h = ground arith
length-follow_action unsubscribe t ts h = ground (arith, length-unsubscribe_topic t ts h)

module _ (s : GossipsubSubscription) (ts : List ℕ) where
  same-leaving :
      (ss : List GossipsubSubscription)
      → All (λ r. (s.topic_hash == r.topic_hash) ≡ false) ss
      → count (is_unsubscribed (follow ts s)) ss ≡ count (is_unsubscribed ts) ss
  unfolding count is_unsubscribed follow
  same-leaving [] h = refl
  same-leaving (r ∷ ss) h =
      ground (
        arith,
        contains-follow_action s.action r.topic_hash s.topic_hash ts h.0,
        same-leaving ss h.1,
      )

  same-entering :
      (ss : List GossipsubSubscription)
      → All (λ r. (s.topic_hash == r.topic_hash) ≡ false) ss
      → count (is_new_subscribed (follow ts s)) ss ≡ count (is_new_subscribed ts) ss
  unfolding count is_new_subscribed follow
  same-entering [] h = refl
  same-entering (r ∷ ss) h = ground (
    arith,
    contains-follow_action s.action r.topic_hash s.topic_hash ts h.0,
    same-entering ss h.1,
  )

count-cons :
    (p : GossipsubSubscription → Bool) (s : GossipsubSubscription) (ss : List GossipsubSubscription)
    → count p (s ∷ ss) ≡ (if p s then 1 else 0) + count p ss
unfolding count
count-cons p s ss = ground arith

length-follow_all :
    (ts : List ℕ) (ss : List GossipsubSubscription)
    → IsTopicSet ts
    → OneEach ss
    → length (follow_all ts ss) + count (is_unsubscribed ts) ss
      ≡ length ts + count (is_new_subscribed ts) ss
unfolding follow_all OneEach follow is_unsubscribed is_new_subscribed
length-follow_all ts [] h o = unfold count in refl
length-follow_all ts (s ∷ ss) h o =
    let rest =
      length-follow_all (follow ts s) ss (action-IsTopicSet s.action s.topic_hash ts h) o.1 in
    let one = length-follow_action s.action s.topic_hash ts h in
    omega (
      arith,
      rest,
      same-leaving s ts ss o.0,
      same-entering s ts ss o.0,
      one,
      count-cons (is_unsubscribed ts) s ss,
      count-cons (is_new_subscribed ts) s ss,
    )

-- What the filter answers, for the limits, the filter inside, the request and the peer's topics.
unfoldable pub IsLimited :
    SubscriptionFilter → (mt mr : ℕ) → List GossipsubSubscription → List ℕ → Filtered → Type 0
IsLimited f mt mr ss current (followed result) =
    (length ss ≤ mr) × ((length (follow_all current result) ≤ mt) × IsClean f result)
IsLimited f mt mr ss current (rejected e) =
    (mr < length ss)
    ⊎ ((filter_incoming_subscriptions f ss current ≡ rejected e)
        ⊎ ((result : List GossipsubSubscription) × ((filter_incoming_subscriptions f ss current
                ≡ followed result)
              × (mt < length (follow_all current result)))))

limit_topics-IsLimited :
    (f : SubscriptionFilter) (mt mr : ℕ) (ss : List GossipsubSubscription) (current : List ℕ)
    (result : List GossipsubSubscription)
    → IsTopicSet current
    → mt + length ss < 2 ^ 64
    → length ss + length current < 2 ^ 64
    → length ss ≤ mr
    → filter_incoming_subscriptions f ss current ≡ followed result
    → IsClean f result
    → length result ≤ length ss
    → IsLimited f mt mr ss current (limit_topics mt current result)
unfolding IsLimited IsClean limit_topics
limit_topics-IsLimited f mt mr ss current result h room small l e clean short =
    let left = count-le (is_unsubscribed current) result in
    let right = count-le (is_new_subscribed current) result in
    let total = length-follow_all current result h clean.0 in
    elim (Bool-cases (
      ltb ((mt + count (is_unsubscribed current) result) % 2 ^ 64)
        ((count (is_new_subscribed current) result + length current) % 2 ^ 64))) [
          | inl b ↦
              rw (b, limit_topics) (inr (inr (result, (e, omega (arith, total, ltb→lt _ _ b)))))
          | inr b ↦
              rw (b, limit_topics)
                (
                  l,
                  (
                    omega (arith, total, left, right, short, room, small, ltb_false→le _ _ b),
                    clean,
                  ),
                )
        ]

Filtered-cases :
    (r : Filtered)
    → ((ss : List GossipsubSubscription) × (r ≡ followed ss))
      ⊎ ((e : FilterError) × (r ≡ rejected e))
Filtered-cases (followed ss) = inl (ss, refl)
Filtered-cases (rejected e) = inr (e, refl)

-- If a peer has a set of topics, and the limit of topics and the number of its topics are each,
-- with the length of the request, below 2^64, the filter with limits around any filter either
-- rejects a request, and then the request is too long, or the filter inside rejects it, or what
-- the filter inside follows would leave the peer with too many topics; or it follows
-- subscriptions, and then the request is not too long, the peer has no more topics than the limit
-- once it has followed them, there is one for each topic, and the filter inside allows each of
-- them.
pub filter_incoming-IsLimited :
    (f : SubscriptionFilter) (mt mr : ℕ) (ss : List GossipsubSubscription) (current : List ℕ)
    → IsTopicSet current
    → mt + length ss < 2 ^ 64
    → length ss + length current < 2 ^ 64
    → IsLimited f mt mr ss current (filter_incoming_subscriptions (max_count f mt mr) ss current)
unfolding filter_incoming_subscriptions IsLimited Holds IsShort
filter_incoming-IsLimited f mt mr ss current h room small = elim (Bool-cases (ltb mr (length ss))) [
  | inl b ↦ rw (b, filter_incoming_subscriptions, IsLimited) (inl (ltb→lt _ _ b))
  | inr b ↦ elim (Filtered-cases (filter_incoming_subscriptions f ss current)) [
    | inl (result, e) ↦
        rw (b, e, filter_incoming_subscriptions)
          (limit_topics-IsLimited f mt mr ss current result h room small (ltb_false→le _ _ b) e
            (subst (Holds (IsClean f)) e (incoming-IsClean f ss current))
            (subst (Holds (IsShort (length ss))) e (incoming-IsShort f ss current)))
    | inr (x, e) ↦ rw (b, e, filter_incoming_subscriptions) (inr (inl e))
  ]
]
