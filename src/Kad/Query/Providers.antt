-- ===== src/Kad/Query/Providers.antt =====
-- The providers that `handle_update` of protocols/kad/src/query.rs gathers.
use libp2p_rs.Common.{
  ℕ, ◌≤◌, ◌<◌, ◌≡◌, refl, ◌∙◌, Bool, true, false, ◌||◌, inl, inr, some, List, [], ◌∷◌, ◌++◌, leb,
  ◌==◌, if◌then◌else◌, arith, Bool-cases, leb→le, leb_false→le, ==_iff,
}
use libp2p_rs.Kad.Query.{KadPeer}
use libp2p_rs.Kad.Query.Update.{insert_by_id, sort_by_id, dedup_after, dedup_by_id, merge_providers}

unfoldable pub has_id : ℕ → List KadPeer → Bool
has_id i [] = false
has_id i (p ∷ ps) = if p.node_id == i then true else has_id i ps

-- The identifiers are non-decreasing from `l` on, and strictly increasing from above `l` on.
AreFrom : ℕ → List KadPeer → Type 0
AreFrom l [] = Unit
AreFrom l (p ∷ ps) = (l ≤ p.node_id) × AreFrom p.node_id ps

pub AreAbove : ℕ → List KadPeer → Type 0
AreAbove l [] = Unit
AreAbove l (p ∷ ps) = (l < p.node_id) × AreAbove p.node_id ps

pub AreDistinct : List KadPeer → Type 0
AreDistinct [] = Unit
AreDistinct (p ∷ ps) = AreAbove p.node_id ps

insert_by_id-AreFrom :
    (l : ℕ) (p : KadPeer) (ps : List KadPeer)
    → l ≤ p.node_id
    → AreFrom l ps
    → AreFrom l (insert_by_id p ps)
unfolding AreFrom insert_by_id
insert_by_id-AreFrom l p [] h a = (h, tt)
insert_by_id-AreFrom l p (q ∷ qs) h a = elim (Bool-cases (leb p.node_id q.node_id)) [
  | inl t ↦ rw (t, AreFrom) (h, (leb→le p.node_id q.node_id t, a.1))
  | inr f ↦
      rw (f, AreFrom)
        (a.0, insert_by_id-AreFrom q.node_id p qs (leb_false→le p.node_id q.node_id f) a.1)
]

sort_by_id-AreFrom : (ps : List KadPeer) → AreFrom 0 (sort_by_id ps)
unfolding AreFrom sort_by_id
sort_by_id-AreFrom [] = tt
sort_by_id-AreFrom (p ∷ ps) =
    insert_by_id-AreFrom 0 p (sort_by_id ps) (omega arith) (sort_by_id-AreFrom ps)

dedup_after-AreAbove :
    (l : ℕ) (p : KadPeer) (ps : List KadPeer)
    → l < p.node_id
    → AreFrom p.node_id ps
    → AreAbove l (dedup_after p ps)
unfolding AreFrom AreAbove dedup_after
dedup_after-AreAbove l p [] h a = (h, tt)
dedup_after-AreAbove l p (q ∷ qs) h a = elim (Bool-cases (p.node_id == q.node_id)) [
  | inl t ↦
      rw (t, AreAbove) (dedup_after-AreAbove l p qs h (rw ((==_iff p.node_id q.node_id).0 t) a.1))
  | inr f ↦ rw (f, AreAbove) (h, dedup_after-AreAbove p.node_id q qs (ground (arith, f, a.0)) a.1)
]

dedup_after-AreDistinct :
    (p : KadPeer) (ps : List KadPeer) → AreFrom p.node_id ps → AreDistinct (dedup_after p ps)
unfolding AreFrom AreDistinct dedup_after AreAbove
dedup_after-AreDistinct p [] a = tt
dedup_after-AreDistinct p (q ∷ qs) a = elim (Bool-cases (p.node_id == q.node_id)) [
  | inl t ↦
      rw (t, AreDistinct) (dedup_after-AreDistinct p qs (rw ((==_iff p.node_id q.node_id).0 t) a.1))
  | inr f ↦ rw (f, AreDistinct) (dedup_after-AreAbove p.node_id q qs (ground (arith, f, a.0)) a.1)
]

dedup_by_id-AreDistinct : (ps : List KadPeer) → AreFrom 0 ps → AreDistinct (dedup_by_id ps)
unfolding AreFrom AreDistinct dedup_by_id
dedup_by_id-AreDistinct [] a = tt
dedup_by_id-AreDistinct (p ∷ ps) a = dedup_after-AreDistinct p ps a.1

module _ (i : ℕ) where
  has_id-append : (ps qs : List KadPeer) → has_id i (ps ++ qs) ≡ (has_id i ps || has_id i qs)
  unfolding has_id
  has_id-append [] qs = refl
  has_id-append (p ∷ ps) qs = ground (arith, has_id-append ps qs)

  has_id-insert_by_id :
      (p : KadPeer) (ps : List KadPeer) → has_id i (insert_by_id p ps) ≡ has_id i (p ∷ ps)
  unfolding has_id insert_by_id
  has_id-insert_by_id p [] = refl
  has_id-insert_by_id p (q ∷ qs) = ground (arith, has_id-insert_by_id p qs)

  has_id-sort_by_id : (ps : List KadPeer) → has_id i (sort_by_id ps) ≡ has_id i ps
  unfolding has_id sort_by_id
  has_id-sort_by_id [] = refl
  has_id-sort_by_id (p ∷ ps) =
      ground (arith, has_id-insert_by_id p (sort_by_id ps), has_id-sort_by_id ps)

  has_id-dedup_after :
      (p : KadPeer) (ps : List KadPeer) → has_id i (dedup_after p ps) ≡ has_id i (p ∷ ps)
  unfolding has_id dedup_after
  has_id-dedup_after p [] = refl
  has_id-dedup_after p (q ∷ qs) = ground (arith, has_id-dedup_after p qs, has_id-dedup_after q qs)

  has_id-dedup_by_id : (ps : List KadPeer) → has_id i (dedup_by_id ps) ≡ has_id i ps
  unfolding has_id dedup_by_id
  has_id-dedup_by_id [] = refl
  has_id-dedup_by_id (p ∷ ps) = has_id-dedup_after p ps

-- Providers that are added to a list of providers give a list in strictly increasing order of
-- identifiers with exactly the identifiers of both.
pub merge_providers-ids :
    (old found : List KadPeer)
    → AreDistinct (merge_providers (some old) found)
      × ((i : ℕ) → has_id i (merge_providers (some old) found) ≡ (has_id i old || has_id i found))
unfolding merge_providers
merge_providers-ids old found = (
  dedup_by_id-AreDistinct (sort_by_id (old ++ found)) (sort_by_id-AreFrom (old ++ found)),
  λ i.
      has_id-dedup_by_id i (sort_by_id (old ++ found))
      ∙ (has_id-sort_by_id i (old ++ found) ∙ has_id-append i old found),
)
