-- ===== src/Gossipsub/Tests.antt =====
-- The theorems on the caches at concrete sequences of calls.
use libp2p_rs.Common.{refl, ℕ, ◌≡◌, some, none, List, [], ◌∷◌, if◌then◌else◌, true, arith}
use libp2p_rs.Common.{refl, contains, take, ◌&&◌}
use libp2p_rs.Gossipsub.MessageCache.Gossip.{in_topic_any, get_gossip_message_ids-contains}
use libp2p_rs.Common.Map
use libp2p_rs.Gossipsub.MessageCache
use libp2p_rs.Gossipsub.MessageCache.{
  RawMessage, CacheEntry, pop, shift, get_gossip_message_ids, is_validated,
}
use libp2p_rs.Gossipsub.MessageCache.Slots.{in_slot, IsValid, shift-get}
use libp2p_rs.Gossipsub.MessageCache.History.{Call, puts, shifts, removes, run, history-IsValid}
use libp2p_rs.Gossipsub.TimeCache.{new}
use libp2p_rs.Gossipsub.TimeCache.Refinement.{answers, reference, answers-reference}
use libp2p_rs.Gossipsub.SubscriptionFilter.{
  GossipsubSubscription, subscribe, unsubscribe, whitelist, max_count,
  filter_incoming_subscriptions,
}
use libp2p_rs.Gossipsub.SubscriptionFilter.Bounded.{
  IsTopicSet, IsLimited, filter_incoming-IsLimited,
}
use libp2p_rs.Common.{ℕ, ◌+◌, ◌≤◌}
use libp2p_rs.Gossipsub.Backoff.{
  update_backoff, new_storage, is_backoff_with_slack, get_backoff_time,
}
use libp2p_rs.Gossipsub.Backoff.History
use libp2p_rs.Gossipsub.Backoff.History.{updates, heartbeats_at, IsBefore, backoff-lasts}

abbrev seen_calls : List (ℕ × ℕ)
seen_calls = (1, 7) ∷ (2, 7) ∷ (1, 8) ∷ (9, 7) ∷ []

answers-reference_example : answers 0 (new 10) seen_calls ≡ reference 10 0 [] seen_calls
answers-reference_example = answers-reference 10 seen_calls

abbrev a_message : RawMessage
a_message = record { topic = 3; content = 1 ∷ []; validated = true }

abbrev cache_calls : List Call
cache_calls = puts 7 a_message ∷ shifts ∷ puts 8 a_message ∷ removes 8 ∷ []

history-IsValid_example :
    (d : MessageCache.MessageCache) × ((run (MessageCache.new 2 3) cache_calls ≡ some d)
      × IsValid 3 d)
history-IsValid_example = history-IsValid 2 3 cache_calls (omega arith)

abbrev a_cache : MessageCache.MessageCache
a_cache = (history-IsValid 2 3 cache_calls (omega arith)).0

shift-get_example :
    (front : List (List CacheEntry)) × ((last : List CacheEntry) × ((d : MessageCache.MessageCache)
        × ((pop a_cache.history ≡ some (front, last))
            × ((shift a_cache ≡ some d)
                × (IsValid 3 d
                    × ((id : ℕ)
                        → Map.get id d.msgs
                          ≡ (if in_slot id last then none else Map.get id a_cache.msgs)))))))
shift-get_example =
    shift-get 3 a_cache (omega arith) (history-IsValid 2 3 cache_calls (omega arith)).1.1

abbrev slotted : MessageCache.MessageCache
slotted = record {
  msgs = (7, a_message) ∷ [];
  iwant_counts = [];
  history = (record { mid = 7; topic = 3 } ∷ []) ∷ [] ∷ [];
  gossip = 1;
}

get_gossip_message_ids-contains_example :
    (ids : List ℕ) × ((get_gossip_message_ids 3 slotted ≡ some ids)
      × ((id : ℕ)
          → contains id ids
            ≡ (in_topic_any id 3 (take 1 slotted.history) && is_validated id slotted)))
get_gossip_message_ids-contains_example = get_gossip_message_ids-contains 3 slotted (omega arith)

-- A peer of one topic asks for two more, gives its own up, and takes one request back.
abbrev requests : List GossipsubSubscription
requests =
    record { action = subscribe; topic_hash = 4 }
    ∷ record { action = subscribe; topic_hash = 5 }
    ∷ record { action = unsubscribe; topic_hash = 3 }
    ∷ record { action = unsubscribe; topic_hash = 5 }
    ∷ []

filter_incoming-IsLimited_example :
    IsLimited
      (whitelist (3 ∷ 4 ∷ []))
      1
      10
      requests
      (3 ∷ [])
      (filter_incoming_subscriptions (max_count (whitelist (3 ∷ 4 ∷ [])) 1 10) requests (3 ∷ []))
unfolding IsTopicSet
filter_incoming-IsLimited_example =
    filter_incoming-IsLimited (whitelist (3 ∷ 4 ∷ [])) 1 10 requests (3 ∷ []) (refl, tt)
      (omega arith) (omega arith)

-- A backoff of 60, which a shorter one does not change and which two heartbeats leave in place.
backoff-lasts_example :
    let r =
      History.run
        (update_backoff (new_storage 100 10 1) 1000 3 7 60)
        (updates 1005 3 7 20 ∷ heartbeats_at 1010 ∷ heartbeats_at 1050 ∷ []) in
    (is_backoff_with_slack r 3 7 ≡ true)
    × ((b : ℕ) × ((get_backoff_time r.backoffs 3 7 ≡ some b) × (1000 + 60 ≤ b)))
unfolding IsBefore
backoff-lasts_example =
    backoff-lasts (new_storage 100 10 1) 1000 3 7 60
      (updates 1005 3 7 20 ∷ heartbeats_at 1010 ∷ heartbeats_at 1050 ∷ [])
      (tt, (omega arith, (omega arith, tt)))
