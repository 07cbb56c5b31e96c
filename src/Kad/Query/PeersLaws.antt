-- ===== src/Kad/Query/PeersLaws.antt =====
-- Laws of `ClosestPeers` (protocols/kad/src/query.rs): the order of its entries, and how its
-- operations change the numbers of peers in a state.
use Prim.Native.Nat.{min}
use libp2p_rs.Common.{
  ℕ, zero, suc, ◌+◌, ◌≤◌, ◌<◌, ◌≡◌, refl, sym, Bool, true, false, inl, inr, [], ◌∷◌, ltb, ◌==◌,
  length, arith, Bool-cases, ltb→lt, true≢false,
}
use libp2p_rs.Kad.Query.{
  KadPeer, PeerState, not_contacted, waiting, unreachable, succeeded, PeerWithState, new_peer,
  same_state,
}
use libp2p_rs.Kad.Query.Peers.{Peers, or_insert, set_state, count_if, mark_waiting, jobs_of}

-- Every key is above `d`.
unfoldable pub IsAbove : ℕ → Peers → Type 0
IsAbove d [] = Unit
IsAbove d ((e, q) ∷ m) = (d < e) × IsAbove d m

unfoldable pub IsSorted : Peers → Type 0
unfolding IsAbove
IsSorted [] = Unit
IsSorted ((d, q) ∷ m) = IsAbove d m × IsSorted m

IsAbove-weaken : (c d : ℕ) (m : Peers) → c < d → IsAbove d m → IsAbove c m
unfolding IsAbove
IsAbove-weaken c d [] h a = tt
IsAbove-weaken c d ((e, q) ∷ m) h a = (omega (arith, a.0), IsAbove-weaken c d m h a.1)

or_insert-IsAbove :
    (c d : ℕ) (p : PeerWithState) (m : Peers) → c < d → IsAbove c m → IsAbove c (or_insert d p m)
unfolding IsAbove or_insert
or_insert-IsAbove c d p [] h a = (h, tt)
or_insert-IsAbove c d p ((e, q) ∷ m) h a = elim (Bool-cases (d == e)) [
  | inl t ↦ rw t a
  | inr f ↦ elim (Bool-cases (ltb d e)) [
    | inl t ↦ rw (f, t) (h, a)
    | inr g ↦ rw (f, g) (a.0, or_insert-IsAbove c d p m h a.1)
  ]
]

gt_of : (d e : ℕ) → (d == e) ≡ false → ltb d e ≡ false → e < d
gt_of d e f g = ground arith

pub or_insert-IsSorted :
    (d : ℕ) (p : PeerWithState) (m : Peers) → IsSorted m → IsSorted (or_insert d p m)
unfolding IsSorted IsAbove or_insert
or_insert-IsSorted d p [] s = (tt, tt)
or_insert-IsSorted d p ((e, q) ∷ m) s = elim (Bool-cases (d == e)) [
  | inl t ↦ rw t s
  | inr f ↦ elim (Bool-cases (ltb d e)) [
    | inl t ↦ rw (f, t) ((ltb→lt d e t, IsAbove-weaken d e m (ltb→lt d e t) s.0), s)
    | inr g ↦
        rw (f, g) (or_insert-IsAbove e d p m (gt_of d e f g) s.0, or_insert-IsSorted d p m s.1)
  ]
]

set_state-IsAbove :
    (c d : ℕ) (s : PeerState) (m : Peers) → IsAbove c m → IsAbove c (set_state d s m)
unfolding IsAbove set_state
set_state-IsAbove c d s [] a = tt
set_state-IsAbove c d s ((e, q) ∷ m) a = elim (Bool-cases (d == e)) [
  | inl t ↦ rw t a
  | inr f ↦ rw f (a.0, set_state-IsAbove c d s m a.1)
]

pub set_state-IsSorted :
    (d : ℕ) (s : PeerState) (m : Peers) → IsSorted m → IsSorted (set_state d s m)
unfolding IsSorted set_state
set_state-IsSorted d s [] h = tt
set_state-IsSorted d s ((e, q) ∷ m) h = elim (Bool-cases (d == e)) [
  | inl t ↦ rw t h
  | inr f ↦ rw f (set_state-IsAbove e d s m h.0, set_state-IsSorted d s m h.1)
]

mark_waiting-IsAbove : (c n : ℕ) (m : Peers) → IsAbove c m → IsAbove c (mark_waiting n m)
unfolding IsAbove mark_waiting
mark_waiting-IsAbove c zero m a = a
mark_waiting-IsAbove c (suc n) [] a = tt
mark_waiting-IsAbove c (suc n) ((e, q) ∷ m) a =
    elim (Bool-cases (same_state q.state not_contacted)) [
      | inl t ↦ rw (t, IsAbove) (a.0, mark_waiting-IsAbove c n m a.1)
      | inr f ↦ rw (f, IsAbove) (a.0, mark_waiting-IsAbove c (suc n) m a.1)
    ]

pub mark_waiting-IsSorted : (n : ℕ) (m : Peers) → IsSorted m → IsSorted (mark_waiting n m)
unfolding IsSorted mark_waiting
mark_waiting-IsSorted zero m h = h
mark_waiting-IsSorted (suc n) [] h = tt
mark_waiting-IsSorted (suc n) ((e, q) ∷ m) h =
    elim (Bool-cases (same_state q.state not_contacted)) [
      | inl t ↦ rw (t, IsSorted) (mark_waiting-IsAbove e n m h.0, mark_waiting-IsSorted n m h.1)
      | inr f ↦
          rw (f, IsSorted)
            (mark_waiting-IsAbove e (suc n) m h.0, mark_waiting-IsSorted (suc n) m h.1)
    ]

module _ (p : PeerState → Bool) where
  pub count_if-or_insert :
      (d : ℕ) (k : KadPeer) (m : Peers)
      → p not_contacted ≡ false
      → count_if p (or_insert d (new_peer k) m) ≡ count_if p m
  unfolding count_if or_insert new_peer
  count_if-or_insert d k [] h = ground arith
  count_if-or_insert d k ((e, q) ∷ m) h = ground (arith, count_if-or_insert d k m h)

  pub count_if-set_state :
      (d : ℕ) (s : PeerState) (m : Peers)
      → p s ≡ false
      → count_if p (set_state d s m) ≤ count_if p m
  unfolding count_if set_state
  count_if-set_state d s [] h = omega arith
  count_if-set_state d s ((e, q) ∷ m) h = ground (arith, count_if-set_state d s m h)

pub not_contacted_not_waiting :
    (s : PeerState) → same_state s not_contacted ≡ true → same_state s waiting ≡ false
not_contacted_not_waiting not_contacted h = refl
not_contacted_not_waiting waiting h = absurd (true≢false (sym h))
not_contacted_not_waiting unreachable h = refl
not_contacted_not_waiting succeeded h = refl

pub count_if-mark_waiting :
    (n : ℕ) (m : Peers)
    → count_if (λ s. same_state s waiting) (mark_waiting n m)
      ≡ count_if (λ s. same_state s waiting) m + length (jobs_of n m)
unfolding count_if mark_waiting jobs_of
count_if-mark_waiting zero m = ground arith
count_if-mark_waiting (suc n) [] = ground arith
count_if-mark_waiting (suc n) ((e, q) ∷ m) = elim (Bool-cases (same_state q.state not_contacted)) [
  | inl t ↦
      rw (t, not_contacted_not_waiting q.state t, count_if, mark_waiting, jobs_of)
        (omega (arith, count_if-mark_waiting n m))
  | inr f ↦ elim (Bool-cases (same_state q.state waiting)) [
    | inl t ↦
        rw (f, t, count_if, mark_waiting, jobs_of) (omega (arith, count_if-mark_waiting (suc n) m))
    | inr g ↦ rw (f, g, count_if, mark_waiting, jobs_of) (count_if-mark_waiting (suc n) m)
  ]
]

pub length-jobs_of :
    (n : ℕ) (m : Peers)
    → length (jobs_of n m) ≡ min n (count_if (λ s. same_state s not_contacted) m)
unfolding count_if jobs_of
length-jobs_of zero m = omega arith
length-jobs_of (suc n) [] = omega arith
length-jobs_of (suc n) ((e, q) ∷ m) = elim (Bool-cases (same_state q.state not_contacted)) [
  | inl t ↦ rw (t, count_if, jobs_of) (omega (arith, length-jobs_of n m))
  | inr f ↦ rw (f, count_if, jobs_of) (length-jobs_of (suc n) m)
]
