-- ===== src/Gossipsub/SubscriptionFilter.antt =====
-- protocols/gossipsub/src/subscription_filter.rs: which subscriptions of a peer are followed. Topics
-- are numbers, and a set or a map is a list with one entry per topic.
pub mod Deduplicated
pub mod Shortened
pub mod Bounded
use libp2p_rs.Common.{
  ℕ, ◌+◌, ◌%◌, ◌^◌, Bool, true, false, not, Option, none, some, List, [], ◌∷◌, ltb, ◌==◌, ◌&&◌,
  if◌then◌else◌, length, filter, map, contains,
}
use libp2p_rs.Common.Map

pub data SubscriptionAction : Type 0 where
  subscribe unsubscribe : SubscriptionAction

pub record GossipsubSubscription : Type 0 where
  pub action : SubscriptionAction
  pub topic_hash : ℕ

-- The filters of the file, and how they contain one another. The state that the closure of a
-- `CallbackSubscriptionFilter` may keep is left out; a regular expression is such a test too.
pub data SubscriptionFilter : Type 0 where
  allow_all : SubscriptionFilter
  whitelist : List ℕ → SubscriptionFilter
  max_count :
      (inner : SubscriptionFilter) (max_subscribed_topics max_subscriptions_per_request : ℕ)
      → SubscriptionFilter
  combined : (filter1 filter2 : SubscriptionFilter) → SubscriptionFilter
  callback : (ℕ → Bool) → SubscriptionFilter

pub data FilterError : Type 0 where
  too_many_subscriptions_per_request too_many_subscribed_topics : FilterError

pub data Filtered : Type 0 where
  followed : List GossipsubSubscription → Filtered
  rejected : FilterError → Filtered

unfoldable pub same_action : SubscriptionAction → SubscriptionAction → Bool
same_action subscribe subscribe = true
same_action subscribe unsubscribe = false
same_action unsubscribe subscribe = false
same_action unsubscribe unsubscribe = true

-- An opposite subscription takes the one before it out.
unfoldable pub deduplicate_one :
    List (ℕ × GossipsubSubscription) → GossipsubSubscription → List (ℕ × GossipsubSubscription)
deduplicate_one m s = elim (Map.get s.topic_hash m) [
  | some old ↦ if same_action old.action s.action then m else Map.remove s.topic_hash m
  | none ↦ Map.insert s.topic_hash s m
]

unfoldable pub deduplicate :
    List (ℕ × GossipsubSubscription) → List GossipsubSubscription → List (ℕ × GossipsubSubscription)
deduplicate m [] = m
deduplicate m (s ∷ ss) = deduplicate (deduplicate_one m s) ss

unfoldable pub can_subscribe : SubscriptionFilter → ℕ → Bool
can_subscribe allow_all t = true
can_subscribe (whitelist topics) t = contains t topics
can_subscribe (max_count f mt mr) t = can_subscribe f t
can_subscribe (combined f g) t = can_subscribe f t && can_subscribe g t
can_subscribe (callback f) t = f t

-- `allow_incoming_subscription` is `can_subscribe` of the topic.
unfoldable pub retain_allowed :
    SubscriptionFilter → List GossipsubSubscription → List GossipsubSubscription
retain_allowed f ss = filter (λ s. can_subscribe f s.topic_hash) ss

unfoldable pub filter_incoming_subscription_set :
    SubscriptionFilter → List GossipsubSubscription → List ℕ → Filtered
filter_incoming_subscription_set allow_all ss current = followed (retain_allowed allow_all ss)
filter_incoming_subscription_set (whitelist topics) ss current =
    followed (retain_allowed (whitelist topics) ss)
filter_incoming_subscription_set (max_count f mt mr) ss current =
    followed (retain_allowed (max_count f mt mr) ss)
filter_incoming_subscription_set (combined f g) ss current =
    elim (filter_incoming_subscription_set f ss current) [
      | followed intermediate ↦ filter_incoming_subscription_set g intermediate current
      | rejected e ↦ rejected e
    ]
filter_incoming_subscription_set (callback f) ss current = followed (retain_allowed (callback f) ss)

-- The trait's `filter_incoming_subscriptions`.
unfoldable pub filter_deduplicated :
    SubscriptionFilter → List GossipsubSubscription → List ℕ → Filtered
filter_deduplicated f ss current =
    filter_incoming_subscription_set f (map (λ e. e.1) (deduplicate [] ss)) current

-- `currently_contained` of the topic is given.
unfoldable pub is_leaving : SubscriptionAction → Bool → Bool
is_leaving subscribe contained = false
is_leaving unsubscribe contained = contained

unfoldable pub is_entering : SubscriptionAction → Bool → Bool
is_entering subscribe contained = not contained
is_entering unsubscribe contained = false

unfoldable pub is_unsubscribed : List ℕ → GossipsubSubscription → Bool
is_unsubscribed current s = is_leaving s.action (contains s.topic_hash current)

unfoldable pub is_new_subscribed : List ℕ → GossipsubSubscription → Bool
is_new_subscribed current s = is_entering s.action (contains s.topic_hash current)

unfoldable pub count : (GossipsubSubscription → Bool) → List GossipsubSubscription → ℕ
count p ss = length (filter p ss)

-- The sums of `usize`, of 64 bits, wrap around; a build that checks them panics there instead.
unfoldable pub limit_topics :
    (max_subscribed_topics : ℕ) → List ℕ → List GossipsubSubscription → Filtered
limit_topics mt current result =
    if ltb ((mt + count (is_unsubscribed current) result) % 2 ^ 64)
      ((count (is_new_subscribed current) result + length current) % 2 ^ 64)
    then rejected too_many_subscribed_topics
    else followed result

unfoldable pub filter_incoming_subscriptions :
    SubscriptionFilter → List GossipsubSubscription → List ℕ → Filtered
filter_incoming_subscriptions allow_all ss current = filter_deduplicated allow_all ss current
filter_incoming_subscriptions (whitelist topics) ss current =
    filter_deduplicated (whitelist topics) ss current
filter_incoming_subscriptions (max_count f mt mr) ss current =
    let inner = filter_incoming_subscriptions f ss current in
    if ltb mr (length ss)
    then rejected too_many_subscriptions_per_request
    else elim inner [ followed result ↦ limit_topics mt current result | rejected e ↦ rejected e ]
filter_incoming_subscriptions (combined f g) ss current =
    filter_deduplicated (combined f g) ss current
filter_incoming_subscriptions (callback f) ss current = filter_deduplicated (callback f) ss current

-- What `handle_received_subscriptions` of gossipsub.rs does to the peer's topics.
unfoldable pub subscribe_topic : ℕ → List ℕ → List ℕ
subscribe_topic t topics = if contains t topics then topics else t ∷ topics

unfoldable pub unsubscribe_topic : ℕ → List ℕ → List ℕ
unsubscribe_topic t topics = filter (λ x. not (t == x)) topics

unfoldable pub follow_action : SubscriptionAction → ℕ → List ℕ → List ℕ
follow_action subscribe t topics = subscribe_topic t topics
follow_action unsubscribe t topics = unsubscribe_topic t topics

unfoldable pub follow : List ℕ → GossipsubSubscription → List ℕ
follow topics s = follow_action s.action s.topic_hash topics

unfoldable pub follow_all : List ℕ → List GossipsubSubscription → List ℕ
follow_all topics [] = topics
follow_all topics (s ∷ ss) = follow_all (follow topics s) ss
