-- ===== src/Gossipsub/MessageCache/History.antt =====
-- The calls on the message cache of protocols/gossipsub/src/mcache.rs in any order: none of them
-- panics, and every message has its place in the history.
use libp2p_rs.Common.{
  ℕ, ◌<◌, ◌≡◌, refl, ◌∙◌, true, inl, inr, Option, none, some, List, [], ◌∷◌, length-replicate,
  arith, Bool-cases, Option-cases,
}
use libp2p_rs.Common.Map
use libp2p_rs.Gossipsub.MessageCache.{
  RawMessage, MessageCache, new, put, get_with_iwant_counts, validate, forget, shift, remove,
}
use libp2p_rs.Gossipsub.MessageCache.Slots.{push_first-some, IsValid, shift-get}

pub data Call : Type 0 where
  puts : ℕ → RawMessage → Call
  counts : (id peer : ℕ) → Call
  validates : ℕ → Call
  shifts : Call
  removes : ℕ → Call

pub step : MessageCache → Call → Option MessageCache
step c (puts id msg) = elim (put id msg c) [ none ↦ none | some (old, d) ↦ some d ]
step c (counts id peer) = some (get_with_iwant_counts id peer c).1
step c (validates id) = some (validate id c).1
step c shifts = shift c
step c (removes id) = some (remove id c).1

pub run : MessageCache → List Call → Option MessageCache
run c [] = some c
run c (call ∷ calls) = elim (step c call) [ none ↦ none | some d ↦ run d calls ]

module _ (capacity : ℕ) where
  put-IsValid :
      (id : ℕ) (msg : RawMessage) (c : MessageCache)
      → 0 < capacity
      → IsValid capacity c
      → (d : MessageCache) × ((step c (puts id msg) ≡ some d) × IsValid capacity d)
  unfolding step put IsValid Map.contains_key
  put-IsValid id msg c p v = elim (Option-cases (Map.get id c.msgs)) [
    | inr (old, e) ↦ (
      record c { msgs = Map.insert id msg c.msgs },
      (
        rw (e, step, put) refl,
        (v.0, λ k h. ground (arith, h, e, v.1 k, Map.get-insert k id msg c.msgs)),
      ),
    )
    | inl n ↦
        let pushed =
          push_first-some (record { mid = id; topic = msg.topic }) c.history (omega (arith, v.0)) in
        (
          record c { msgs = Map.insert id msg c.msgs; history = pushed.0 },
          (
            rw (n, pushed.1.0, step, put) refl,
            (
              pushed.1.1.0 ∙ v.0,
              λ k h. ground (arith, h, n, v.1 k, Map.get-insert k id msg c.msgs, pushed.1.1.1 k),
            ),
          ),
        )
  ]

  counts-IsValid :
      (id peer : ℕ) (c : MessageCache)
      → IsValid capacity c
      → IsValid capacity (get_with_iwant_counts id peer c).1
  unfolding get_with_iwant_counts IsValid
  counts-IsValid id peer c v = elim (Option-cases (Map.get id c.msgs)) [
    | inl n ↦ rw (n, get_with_iwant_counts) v
    | inr (msg, e) ↦ elim (Bool-cases msg.validated) [
      | inl t ↦ rw (e, t, get_with_iwant_counts) v
      | inr f ↦ rw (e, f, get_with_iwant_counts) v
    ]
  ]

  validate-IsValid :
      (id : ℕ) (c : MessageCache) → IsValid capacity c → IsValid capacity (validate id c).1
  unfolding validate IsValid Map.contains_key
  validate-IsValid id c v = elim (Option-cases (Map.get id c.msgs)) [
    | inl n ↦ rw (n, validate) v
    | inr (msg, e) ↦
        rw (e, validate)
          (
            v.0,
            λ k h.
                ground (
                  arith,
                  h,
                  e,
                  v.1 k,
                  Map.get-insert k id (record msg { validated = true }) c.msgs,
                ),
          )
  ]

  remove-IsValid :
      (id : ℕ) (c : MessageCache) → IsValid capacity c → IsValid capacity (remove id c).1
  unfolding remove forget IsValid Map.contains_key
  remove-IsValid id c v = (v.0, λ k h. ground (arith, h, v.1 k, Map.get-remove k id c.msgs))

  step-IsValid :
      (c : MessageCache) (call : Call)
      → 0 < capacity
      → IsValid capacity c
      → (d : MessageCache) × ((step c call ≡ some d) × IsValid capacity d)
  unfolding step
  step-IsValid c (puts id msg) p v = put-IsValid id msg c p v
  step-IsValid c (counts id peer) p v = (_, (refl, counts-IsValid id peer c v))
  step-IsValid c (validates id) p v = (_, (refl, validate-IsValid id c v))
  step-IsValid c shifts p v =
      let after = shift-get capacity c p v in (after.1.1.0, (after.1.1.1.1.0, after.1.1.1.1.1.0))
  step-IsValid c (removes id) p v = (_, (refl, remove-IsValid id c v))

  run-from :
      (c : MessageCache) (calls : List Call)
      → 0 < capacity
      → IsValid capacity c
      → (d : MessageCache) × ((run c calls ≡ some d) × IsValid capacity d)
  unfolding run
  run-from c [] p v = (c, (refl, v))
  run-from c (call ∷ calls) p v =
      let next = step-IsValid c call p v in
      let after = run-from next.0 calls p next.1.1 in
      (after.0, (rw (next.1.0, run) after.1.0, after.1.1))

  new-IsValid : (gossip : ℕ) → IsValid capacity (new gossip capacity)
  unfolding new IsValid Map.contains_key Map.get
  new-IsValid gossip = (length-replicate capacity [], λ id h. absurd (ground (arith, h)))

-- On a new message cache with one slot of history or more, no sequence of puts, counted reads,
-- validations, shifts and removals panics, and after it the history has as many slots as at the
-- start and holds the identifier of every cached message.
pub history-IsValid :
    (gossip capacity : ℕ) (calls : List Call)
    → 0 < capacity
    → (d : MessageCache) × ((run (new gossip capacity) calls ≡ some d) × IsValid capacity d)
history-IsValid gossip capacity calls p =
    run-from capacity (new gossip capacity) calls p (new-IsValid capacity gossip)
