-- ===== src/Kad/Query.antt =====
-- protocols/kad/src/query.rs: the iterative query, which asks ever closer peers, and the record of
-- the peers that it has seen. Identifiers of peers and keys, addresses and times are numbers.
pub mod Peers
pub mod PeersLaws
pub mod Update
pub mod Round
pub mod Bounded
pub mod Progress
pub mod Terminate
pub mod Providers
mod Tests
use libp2p_rs.Common.{ℕ, Bool, true, false, Option, none, some, List, [], ◌∷◌}

-- `KadConnectionType` and `KadPeer` of protocols/kad/src/protocol.rs.
pub data KadConnectionType : Type 0 where
  not_connected connected can_connect cannot_connect : KadConnectionType

pub record KadPeer : Type 0 where
  pub node_id : ℕ
  pub multiaddrs : List ℕ
  pub connection_ty : KadConnectionType

pub data PeerState : Type 0 where
  not_contacted waiting unreachable succeeded : PeerState

pub record PeerWithState : Type 0 where
  pub peer : KadPeer
  pub state : PeerState

unfoldable pub new_peer : KadPeer → PeerWithState
new_peer p = record { peer = p; state = not_contacted }

-- `==` of `PeerState`.
abbrev pub same_state : PeerState → PeerState → Bool
same_state not_contacted not_contacted = true
same_state waiting waiting = true
same_state unreachable unreachable = true
same_state succeeded succeeded = true
same_state _ _ = false
