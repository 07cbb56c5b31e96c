-- ===== src/Gossipsub/Backoff.antt =====
-- protocols/gossipsub/src/backoff.rs: until when a pruned peer is left alone. Topics and peers are
-- numbers, times and durations are nanoseconds, and a call is given the time that it reads.
pub mod Entries
pub mod History
use libp2p_rs.Common.{
  ℕ, suc, ◌+◌, ◌-◌, ◌*◌, ◌/◌, ◌%◌, Bool, true, false, Option, none, some, List, [], ◌∷◌, ltb, ◌==◌,
  ◌&&◌, not, if◌then◌else◌, length, get_elem?, set, filter, any, replicate,
}
use libp2p_rs.Common.Map

-- The backoffs of the peers of a topic: the time and the index of the heartbeat.
abbrev pub Backoffs : Type 0
Backoffs = List (ℕ × List (ℕ × (ℕ × ℕ)))

pub record BackoffStorage : Type 0 where
  pub backoffs : Backoffs
  pub backoffs_by_heartbeat : List (List (ℕ × ℕ))
  pub heartbeat_index : ℕ
  pub heartbeat_interval : ℕ
  pub backoff_slack : ℕ

-- A division by an interval of zero panics in the source.
unfoldable pub heartbeats : (duration heartbeat_interval : ℕ) → ℕ
heartbeats d interval = (d + interval - 1) / interval

unfoldable pub new_storage : (prune_backoff heartbeat_interval backoff_slack : ℕ) → BackoffStorage
new_storage prune_backoff interval slack = record {
  backoffs = [];
  backoffs_by_heartbeat = replicate (heartbeats prune_backoff interval + slack + 1) [];
  heartbeat_index = 0;
  heartbeat_interval = interval;
  backoff_slack = slack;
}

unfoldable pub peers_of : ℕ → Backoffs → List (ℕ × (ℕ × ℕ))
peers_of topic bs = elim (Map.get topic bs) [ none ↦ [] | some peers ↦ peers ]

-- The entry of a topic and a peer.
unfoldable pub backoff_of : (topic peer : ℕ) → Backoffs → Option (ℕ × ℕ)
backoff_of topic peer bs = Map.get peer (peers_of topic bs)

unfoldable pub put_backoff : (topic peer : ℕ) → ℕ × ℕ → Backoffs → Backoffs
put_backoff topic peer entry bs = Map.insert topic (Map.insert peer entry (peers_of topic bs)) bs

unfoldable pub same_pair : ℕ × ℕ → ℕ × ℕ → Bool
same_pair (t, p) (u, q) = t == u && p == q

-- `HashSet::insert` and `HashSet::remove`.
unfoldable pub insert_pair : ℕ × ℕ → List (ℕ × ℕ) → List (ℕ × ℕ)
insert_pair x xs = if any (same_pair x) xs then xs else x ∷ xs

unfoldable pub remove_pair : ℕ × ℕ → List (ℕ × ℕ) → List (ℕ × ℕ)
remove_pair x xs = filter (λ y. not (same_pair x y)) xs

unfoldable pub change_slot :
    ℕ → (List (ℕ × ℕ) → List (ℕ × ℕ)) → List (List (ℕ × ℕ)) → List (List (ℕ × ℕ))
change_slot i f slots = elim (get_elem? slots i) [ none ↦ slots | some s ↦ set slots i (f s) ]

-- `insert_into_backoffs_by_heartbeat`, and the entry for the map.
unfoldable pub record_backoff :
    BackoffStorage → (topic peer instant time : ℕ) → List (List (ℕ × ℕ)) → BackoffStorage
record_backoff s topic peer instant time slots =
    let index =
      (s.heartbeat_index + heartbeats time s.heartbeat_interval + s.backoff_slack) % length slots in
    record s {
      backoffs = put_backoff topic peer (instant, index) s.backoffs;
      backoffs_by_heartbeat = change_slot index (insert_pair (topic, peer)) slots;
    }

unfoldable pub update_occupied :
    BackoffStorage → (topic peer instant time : ℕ) → Option (ℕ × ℕ) → BackoffStorage
update_occupied s topic peer instant time none =
    record_backoff s topic peer instant time s.backoffs_by_heartbeat
update_occupied s topic peer instant time (some (backoff, index)) =
    if ltb backoff instant
    then record_backoff s topic peer instant time
        (change_slot index (remove_pair (topic, peer)) s.backoffs_by_heartbeat)
    else s

unfoldable pub update_backoff : BackoffStorage → (now topic peer time : ℕ) → BackoffStorage
update_backoff s now topic peer time =
    update_occupied s topic peer (now + time) time (backoff_of topic peer s.backoffs)

unfoldable pub is_backoff_with_slack : BackoffStorage → (topic peer : ℕ) → Bool
is_backoff_with_slack s topic peer = elim (Map.get topic s.backoffs) [
  | none ↦ false
  | some m ↦ Map.contains_key peer m
]

unfoldable pub get_backoff_time : Backoffs → (topic peer : ℕ) → Option ℕ
get_backoff_time bs topic peer = elim (Map.get topic bs) [
  | none ↦ none
  | some m ↦ elim (Map.get peer m) [ none ↦ none | some e ↦ some e.0 ]
]

unfoldable pub no_peers : List (ℕ × (ℕ × ℕ)) → Bool
no_peers [] = true
no_peers (e ∷ m) = false

-- `m.get_mut().remove(peer).is_some() && m.get().no_peers()`
unfoldable pub erase : (topic peer : ℕ) → Backoffs → Backoffs
erase topic peer bs = elim (Map.get topic bs) [
  | none ↦ bs
  | some m ↦
      if Map.contains_key peer m && no_peers (Map.remove peer m)
      then Map.remove topic bs
      else Map.insert topic (Map.remove peer m) bs
]

unfoldable pub is_kept : (now slack : ℕ) → Option ℕ → Bool
is_kept now slack none = false
is_kept now slack (some backoff_time) = ltb now (backoff_time + slack)

-- The `retain` over a slot, which also removes the backoffs that are over.
unfoldable pub sweep_pairs : (now slack : ℕ) → List (ℕ × ℕ) → Backoffs → List (ℕ × ℕ) × Backoffs
sweep_pairs now slack [] bs = ([], bs)
sweep_pairs now slack ((topic, peer) ∷ xs) bs =
    let kept = is_kept now slack (get_backoff_time bs topic peer) in
    let rest = sweep_pairs now slack xs (if kept then bs else erase topic peer bs) in
    (if kept then (topic, peer) ∷ rest.0 else rest.0, rest.1)

unfoldable pub sweep_slot : ℕ → BackoffStorage → Option (List (ℕ × ℕ)) → BackoffStorage
sweep_slot now s none = s
sweep_slot now s (some slot) =
    let r = sweep_pairs now (s.heartbeat_interval * s.backoff_slack) slot s.backoffs in
    record s {
      backoffs = r.1;
      backoffs_by_heartbeat = set s.backoffs_by_heartbeat s.heartbeat_index r.0;
    }

unfoldable pub heartbeat : BackoffStorage → ℕ → BackoffStorage
heartbeat s now =
    let t = sweep_slot now s (get_elem? s.backoffs_by_heartbeat s.heartbeat_index) in
    record t { heartbeat_index = (s.heartbeat_index + 1) % length t.backoffs_by_heartbeat }
