-- ===== src/Lib.antt =====
-- libp2p-rs, a networking stack in Rust, modelled by its components.
--
-- Kad (protocols/kad/src) is the Kademlia DHT. Kad.Key models kbucket/key.rs: the 256-bit
-- keyspace, the XOR distance and the integer logarithm that picks a bucket. Kad.Bucket models
-- kbucket/bucket.rs, Kad.Table the routing table of kbucket.rs behind the entries of
-- kbucket/entry.rs, and Kad.Closest the iteration of kbucket.rs over buckets and nodes by their
-- distance to a target. Kad.Query models the iterative query of query.rs: Peers is `ClosestPeers`,
-- Update is `handle_update`, and Round is the loop of `run`, with the updates that the channel
-- delivers as a list; the jobs of peers, the deadline and the statistics are outside of it.
-- Kad.Store models the records of record.rs and the memory store of record/store/memory.rs.
-- Kad.Peers models the methods and handlers of kad.rs through which peers enter the routing table,
-- replace one another and leave it, with addresses.rs; it calls Kad.Table, and pins peers in the
-- PeerStore. Its Changes is the step relation of these handlers on the table.
--
-- Mplex (protocols/mplex/src/frame) models the frames of the stream multiplexer: Header is
-- frame/header.rs, and Io is frame/length_delimited.rs and frame/io.rs over a list of bytes.
--
-- Multistream (core/src/multistream) models multistream-select: Message is protocol.rs, with names
-- and messages as lists of bytes, LengthDelimited is length_delimited.rs over a list of bytes, and
-- Negotiator is negotiator.rs, `negotiate` and `select_one` as state machines with a state for each
-- `.await`. Negotiation.Joint puts one of each on the two ends of a connection, which carries the
-- encoded messages in order and ends when an end has hung up; the steps of the ends are in any order.
--
-- Gossipsub (protocols/gossipsub/src) models the data that gossipsub keeps: TimeCache is
-- time_cache.rs, with the time that a call reads as an argument, MessageCache is mcache.rs, Backoff
-- is backoff.rs, GossipPromises is gossip_promises.rs, with the pick of the crate `rand` as a
-- parameter of each call, and SubscriptionFilter is subscription_filter.rs, with what gossipsub.rs then does to
-- the topics of a peer.
--
-- PeerStore (core/src/peerstore.rs) models the store of what is known of the peers, without its
-- files and its latencies.
--
-- Runtime.TaskLimiter (runtime/src/limit.rs) models the limiter of tasks as the steps that its
-- client, its main loop and its tasks make in any order, a step being what one of them does up to
-- its next wait or its next access to shared data.
--
-- Peers, keys, addresses and times are numbers, and so are the 32-bit and 256-bit integers, with
-- their bounds as hypotheses or with the wrap-around written out. An `ArrayVec` is a list with a
-- bound that the code keeps, and a `HashMap` or a `BTreeMap` the list of its entries. SHA-256, the
-- arithmetic of `U256` and the crate `unsigned_varint` are parameters with their laws, and so is
-- the generator of the crate `rand` that draws a distance in Kad.Table.Index;
-- Kad.Key.Model, Mplex.Model and Multistream.Model have concrete ones. The bucket iterator of
-- Kad.Closest runs on fuel: 514 calls are enough for all distances, since it passes each of the
-- 256 buckets twice at most.
--
-- Not modelled are the event loops, channels and tasks, the network and the cryptography, and the
-- parts of the repository that no file here names.
pub mod Common
pub mod Gossipsub
pub mod Kad
pub mod Mplex
pub mod Multistream
pub mod PeerStore
pub mod Runtime
