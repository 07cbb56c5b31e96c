-- ===== src/Gossipsub/MessageCache/Slots.antt =====
-- The slots of the history of protocols/gossipsub/src/mcache.rs, and what a shift takes away.
use libp2p_rs.Common.{
  ℕ, suc, ◌<◌, ◌≡◌, refl, ap, ◌∙◌, Bool, true, false, ◌||◌, none, some, List, [], ◌∷◌, ◌++◌, ◌==◌,
  if◌then◌else◌, length, arith,
}
use libp2p_rs.Common.Map
use libp2p_rs.Gossipsub.MessageCache.{
  CacheEntry, MessageCache, push_first, pop, forget, forget_all, shift,
}

unfoldable pub in_slot : ℕ → List CacheEntry → Bool
in_slot id [] = false
in_slot id (e ∷ es) = if id == e.mid then true else in_slot id es

unfoldable pub in_history : ℕ → List (List CacheEntry) → Bool
in_history id [] = false
in_history id (slot ∷ slots) = in_slot id slot || in_history id slots

in_slot-push :
    (id : ℕ) (e : CacheEntry) (es : List CacheEntry)
    → in_slot id (es ++ (e ∷ [])) ≡ (in_slot id es || (id == e.mid))
unfolding in_slot
in_slot-push id e [] = ground arith
in_slot-push id e (x ∷ es) = ground (arith, in_slot-push id e es)

pub push_first-some :
    (e : CacheEntry) (h : List (List CacheEntry))
    → 0 < length h
    → (g : List (List CacheEntry)) × ((push_first e h ≡ some g)
        × ((length g ≡ length h)
            × ((id : ℕ) → in_history id g ≡ ((id == e.mid) || in_history id h))))
unfolding push_first in_history
push_first-some e [] p = absurd (omega arith)
push_first-some e (slot ∷ slots) p =
    ((slot ++ (e ∷ [])) ∷ slots, (refl, (refl, λ id. ground (arith, in_slot-push id e slot))))

pop-some :
    (h : List (List CacheEntry))
    → 0 < length h
    → (front : List (List CacheEntry)) × ((last : List CacheEntry) × ((pop h ≡ some (front, last))
          × ((suc (length front) ≡ length h)
              × ((id : ℕ) → in_history id h ≡ (in_history id front || in_slot id last)))))
unfolding pop in_history
pop-some [] p = absurd (omega arith)
pop-some (slot ∷ []) p = ([], (slot, (refl, (refl, λ id. ground arith))))
pop-some (slot ∷ next ∷ slots) p =
    let rest = pop-some (next ∷ slots) (omega arith) in
    (
      slot ∷ rest.0,
      (
        rest.1.0,
        (rw (rest.1.1.0, pop) refl, (ap suc rest.1.1.1.0, λ id. ground (arith, rest.1.1.1.1 id))),
      ),
    )

get-forget_all :
    (id : ℕ) (es : List CacheEntry) (c : MessageCache)
    → Map.get id (forget_all es c).msgs ≡ (if in_slot id es then none else Map.get id c.msgs)
unfolding forget_all forget in_slot
get-forget_all id [] c = refl
get-forget_all id (e ∷ es) c =
    ground (arith, get-forget_all id es (forget e.mid c), Map.get-remove id e.mid c.msgs)

unfoldable pub IsValid : ℕ → MessageCache → Type 0
IsValid capacity c =
    (length c.history ≡ capacity)
    × ((id : ℕ) → Map.contains_key id c.msgs ≡ true → in_history id c.history ≡ true)

-- On a valid message cache with one slot or more a shift does not panic, keeps the cache valid,
-- takes away the messages whose identifiers are in the last slot of the history, and no other.
pub shift-get :
    (capacity : ℕ) (c : MessageCache)
    → 0 < capacity
    → IsValid capacity c
    → (front : List (List CacheEntry)) × ((last : List CacheEntry) × ((d : MessageCache) × ((pop
                c.history
              ≡ some (front, last))
            × ((shift c ≡ some d)
                × (IsValid capacity d
                    × ((id : ℕ)
                        → Map.get id d.msgs
                          ≡ (if in_slot id last then none else Map.get id c.msgs)))))))
unfolding shift IsValid Map.contains_key in_history in_slot
shift-get capacity c p v =
    let popped = pop-some c.history (omega (arith, v.0)) in
    (
      popped.0,
      (
        popped.1.0,
        (
          record (forget_all popped.1.0 c) { history = [] ∷ popped.0 },
          (
            popped.1.1.0,
            (
              rw (popped.1.1.0, shift) refl,
              (
                (
                  popped.1.1.1.0 ∙ v.0,
                  λ id h.
                      ground (arith, h, get-forget_all id popped.1.0 c, v.1 id, popped.1.1.1.1 id),
                ),
                λ id. get-forget_all id popped.1.0 c,
              ),
            ),
          ),
        ),
      ),
    )
