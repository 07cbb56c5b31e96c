-- ===== src/Kad/Query/Terminate.antt =====
-- `can_terminate` and `has_target` of protocols/kad/src/query.rs: what a query has found when its
-- loop is left.
use libp2p_rs.Common.{
  ℕ, zero, suc, ◌≤◌, ◌<◌, ◌≡◌, refl, sym, ap, subst, ◌∙◌, Bool, true, false, ◌||◌, ◌&&◌, inl, inr,
  none, some, [], ◌∷◌, ltb, ◌==◌, if◌then◌else◌, take, filter, arith, Bool-cases, true≢false,
}
use libp2p_rs.Common.Map
use libp2p_rs.Kad.Query.{
  PeerState, not_contacted, waiting, unreachable, succeeded, PeerWithState, same_state,
}
use libp2p_rs.Kad.Query.Peers.{Peers, ClosestPeers, values, can_terminate, all_succeeded}
use libp2p_rs.Kad.Query.PeersLaws.{IsAbove, IsSorted}

-- The peers below the distance `d` that have answered.
unfoldable pub succeeded_below : ℕ → Peers → ℕ
succeeded_below d [] = 0
succeeded_below d ((e, q) ∷ m) =
    if ltb e d && same_state q.state succeeded
    then suc (succeeded_below d m)
    else succeeded_below d m

abbrev pub is_pending : PeerState → Bool
is_pending s = same_state s not_contacted || same_state s waiting

abbrev is_reachable : PeerWithState → Bool
is_reachable q =
    same_state q.state not_contacted || (same_state q.state waiting || same_state q.state succeeded)

get-IsAbove : (d e : ℕ) (m : Peers) (q : PeerWithState) → IsAbove e m → Map.get d m ≡ some q → e < d
unfolding IsAbove Map.get
get-IsAbove d e [] q a h = absurd (ground arith)
get-IsAbove d e ((j, p) ∷ m) q a h = elim (Bool-cases (d == j)) [
  | inl t ↦ ground (arith, a.0, t)
  | inr f ↦ get-IsAbove d e m q a.1 (ground (arith, f, h))
]

some-inj : (p q : PeerWithState) → some p ≡ some q → p.state ≡ q.state
some-inj p q h = ap (λ o. elim o [ none ↦ q.state | some r ↦ r.state ]) h

head_state :
    (d e : ℕ) (r q : PeerWithState) (m : Peers)
    → (d == e) ≡ true
    → Map.get d ((e, r) ∷ m) ≡ some q
    → r.state ≡ q.state
unfolding Map.get
head_state d e r q m t h = some-inj r q (ground (arith, t, h))

tail_get :
    (d e : ℕ) (r q : PeerWithState) (m : Peers)
    → (d == e) ≡ false
    → Map.get d ((e, r) ∷ m) ≡ some q
    → Map.get d m ≡ some q
unfolding Map.get
tail_get d e r q m f h = ground (arith, f, h)

get_none : (d : ℕ) (q : PeerWithState) → Map.get d [] ≡ some q → true ≡ false
unfolding Map.get
get_none d q h = ground (arith, h)

succeeded_not_pending : (s : PeerState) → same_state s succeeded ≡ true → is_pending s ≡ false
succeeded_not_pending not_contacted h = absurd (true≢false (sym h))
succeeded_not_pending waiting h = absurd (true≢false (sym h))
succeeded_not_pending unreachable h = refl
succeeded_not_pending succeeded h = refl

nearer_succeeded :
    (beta d : ℕ) (m : Peers) (q : PeerWithState)
    → IsSorted m
    → all_succeeded (take beta (filter is_reachable (values m))) ≡ true
    → Map.get d m ≡ some q
    → is_pending q.state ≡ true
    → beta ≤ succeeded_below d m
unfolding IsSorted all_succeeded succeeded_below
nearer_succeeded zero d m q s t h p = omega arith
nearer_succeeded (suc b) d [] q s t h p = absurd (ground (arith, get_none d q h))
nearer_succeeded (suc b) d ((e, r) ∷ m) q s t h p =
    elim (Bool-cases (same_state r.state succeeded)) [
      | inl y ↦ elim (Bool-cases (d == e)) [
        | inl k ↦ absurd (
            true≢false (
              sym p
              ∙ succeeded_not_pending q.state
                  (subst (λ v. same_state v succeeded ≡ true) (head_state d e r q m k h) y)))
        | inr k ↦ ground (
          arith,
          t,
          p,
          y,
          nearer_succeeded b d m q s.1,
          tail_get d e r q m k h,
          get-IsAbove d e m q s.0,
        )
      ]
      | inr n ↦ elim (Bool-cases (d == e)) [
        | inl k ↦ ground (arith, t, p, n, head_state d e r q m k h)
        | inr k ↦
            ground (arith, t, p, n, nearer_succeeded (suc b) d m q s.1, tail_get d e r q m k h)
      ]
    ]

-- When the peers are in order and `can_terminate` holds for beta, every peer that is not contacted
-- or waited for has at least beta peers nearer to the target that have answered.
pub can_terminate-nearer :
    (c : ClosestPeers) (beta d : ℕ) (q : PeerWithState)
    → IsSorted c.closest_peers
    → can_terminate c beta ≡ true
    → Map.get d c.closest_peers ≡ some q
    → is_pending q.state ≡ true
    → beta ≤ succeeded_below d c.closest_peers
unfolding can_terminate
can_terminate-nearer c beta d q s t h p = nearer_succeeded beta d c.closest_peers q s t h p
