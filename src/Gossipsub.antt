-- ===== src/Gossipsub.antt =====
-- The publish-subscribe protocol gossipsub (protocols/gossipsub/src): its caches and filters.
pub mod TimeCache
pub mod MessageCache
pub mod SubscriptionFilter
pub mod Backoff
pub mod GossipPromises
mod Tests
