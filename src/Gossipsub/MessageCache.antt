-- ===== src/Gossipsub/MessageCache.antt =====
-- protocols/gossipsub/src/mcache.rs: the cache of messages for gossip, with the slots of its history.
-- Identifiers of messages, peers and topics are numbers. `none` is a panic.
pub mod Slots
pub mod History
pub mod Gossip
use libp2p_rs.Common.{
  ℕ, zero, suc, ◌+◌, ◌%◌, ◌^◌, Bool, true, false, ◌&&◌, Option, none, some, List, [], ◌∷◌, ◌++◌,
  ltb, ◌==◌, if◌then◌else◌, length, take, replicate,
}
use libp2p_rs.Common.Map

-- `RawGossipsubMessage`, of which the cache reads the topic and whether it is validated; the other fields are carried along in its content.
pub record RawMessage : Type 0 where
  pub topic : ℕ
  pub content : List ℕ
  pub validated : Bool

pub record CacheEntry : Type 0 where
  pub mid : ℕ
  pub topic : ℕ

pub record MessageCache : Type 0 where
  pub msgs : List (ℕ × RawMessage)
  pub iwant_counts : List (ℕ × List (ℕ × ℕ))
  pub history : List (List CacheEntry)
  pub gossip : ℕ

unfoldable pub new : (gossip history_capacity : ℕ) → MessageCache
new gossip history_capacity = record {
  msgs = [];
  iwant_counts = [];
  history = replicate history_capacity [];
  gossip = gossip;
}

-- `self.history[0].push(entry)`
unfoldable pub push_first : CacheEntry → List (List CacheEntry) → Option (List (List CacheEntry))
push_first e [] = none
push_first e (slot ∷ slots) = some ((slot ++ (e ∷ [])) ∷ slots)

-- The message that was there under the identifier comes back.
unfoldable pub put : ℕ → RawMessage → MessageCache → Option (Option RawMessage × MessageCache)
put id msg c =
    let msgs = Map.insert id msg c.msgs in
    elim (Map.get id c.msgs) [
      | some old ↦ some (some old, record c { msgs = msgs })
      | none ↦ elim (push_first (record { mid = id; topic = msg.topic }) c.history) [
        | none ↦ none
        | some history ↦ some (none, record c { msgs = msgs; history = history })
      ]
    ]

-- The count of a peer, 0 when there is none.
unfoldable pub count_of : ℕ → List (ℕ × ℕ) → ℕ
count_of peer m = elim (Map.get peer m) [ none ↦ 0 | some n ↦ n ]

unfoldable pub counts_of : ℕ → List (ℕ × List (ℕ × ℕ)) → List (ℕ × ℕ)
counts_of id m = elim (Map.get id m) [ none ↦ [] | some counts ↦ counts ]

unfoldable pub get_with_iwant_counts :
    (id peer : ℕ) → MessageCache → Option (RawMessage × ℕ) × MessageCache
get_with_iwant_counts id peer c =
    let counts = counts_of id c.iwant_counts in
    let count = suc (count_of peer counts) % 2 ^ 32 in
    let counted = record c {
      iwant_counts = Map.insert id (Map.insert peer count counts) c.iwant_counts;
    } in
    elim (Map.get id c.msgs) [
      | none ↦ (none, c)
      | some msg ↦ if msg.validated then (some (msg, count), counted) else (none, c)
    ]

unfoldable pub validate : ℕ → MessageCache → Option RawMessage × MessageCache
validate id c = elim (Map.get id c.msgs) [
  | none ↦ (none, c)
  | some msg ↦
      let validated = record msg { validated = true } in
      (some validated, record c { msgs = Map.insert id validated c.msgs })
]

unfoldable pub is_validated : ℕ → MessageCache → Bool
is_validated id c = elim (Map.get id c.msgs) [ none ↦ false | some msg ↦ msg.validated ]

unfoldable pub gossip_of : (topic : ℕ) → MessageCache → List CacheEntry → List ℕ
gossip_of topic c [] = []
gossip_of topic c (e ∷ es) =
    if (e.topic == topic) && is_validated e.mid c
    then e.mid ∷ gossip_of topic c es
    else gossip_of topic c es

unfoldable pub gossip_of_all : (topic : ℕ) → MessageCache → List (List CacheEntry) → List ℕ
gossip_of_all topic c [] = []
gossip_of_all topic c (slot ∷ slots) = gossip_of topic c slot ++ gossip_of_all topic c slots

-- The range `..gossip` of the history panics beyond its end.
unfoldable pub get_gossip_message_ids : (topic : ℕ) → MessageCache → Option (List ℕ)
get_gossip_message_ids topic c =
    if ltb (length c.history) c.gossip
    then none
    else some (gossip_of_all topic c (take c.gossip c.history))

unfoldable pub pop : List (List CacheEntry) → Option (List (List CacheEntry) × List CacheEntry)
pop [] = none
pop (slot ∷ slots) = elim (pop slots) [
  | none ↦ some ([], slot)
  | some (front, last) ↦ some (slot ∷ front, last)
]

unfoldable pub forget : ℕ → MessageCache → MessageCache
forget id c = record c { msgs = Map.remove id c.msgs; iwant_counts = Map.remove id c.iwant_counts }

unfoldable pub forget_all : List CacheEntry → MessageCache → MessageCache
forget_all [] c = c
forget_all (e ∷ es) c = forget_all es (forget e.mid c)

unfoldable pub shift : MessageCache → Option MessageCache
shift c = elim (pop c.history) [
  | none ↦ none
  | some (front, last) ↦ some (record (forget_all last c) { history = [] ∷ front })
]

unfoldable pub remove : ℕ → MessageCache → Option RawMessage × MessageCache
remove id c = (Map.get id c.msgs, forget id c)
