-- ===== src/Kad.antt =====
-- The Kademlia DHT (protocols/kad/src): the keyspace, the routing table, the record store and the
-- iterative query.
pub mod Key
pub mod Bucket
pub mod Table
pub mod Closest
pub mod Query
pub mod Store
pub mod Peers
mod Tests
