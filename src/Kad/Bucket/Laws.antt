-- ===== src/Kad/Bucket/Laws.antt =====
-- What the operations of one bucket keep, for protocols/kad/src/kbucket/bucket.rs.
use libp2p_rs.Common.{
  ℕ, zero, suc, ◌≤◌, ◌≡◌, ◌≢◌, inl, inr, refl, Option, none, some, List, [], ◌∷◌, ◌++◌, ◌==◌,
  if◌then◌else◌, length, get_elem?, position, All, All-append, Bool-cases, Option-cases, arith,
}
use libp2p_rs.Kad.Key.{Key}
use libp2p_rs.Kad.Bucket.{Node, KBucket, remove_at, has_key, get, set_first}

module _ {ℓ κ} {T : Type ℓ} {V : Type κ} where
  -- The value of the first node with the key.
  abbrev pub value_in : Key T → List (Node T V) → Option V
  value_in k [] = none
  value_in k (n ∷ ns) = if has_key k n then some n.value else value_in k ns

  abbrev pub Distinct : List (Node T V) → Type 0
  Distinct [] = Unit {0}
  Distinct (n ∷ ns) = All (λ m. m.key.bytes ≢ n.key.bytes) ns × Distinct ns

  get-value_in :
      (k : Key T) (ns : List (Node T V))
      → (elim (position (has_key k) ns) [
        | none ↦ none
        | some p ↦ elim (get_elem? ns p) [ none ↦ none | some n ↦ some n.value ]
      ])
        ≡ value_in k ns
  get-value_in k [] = refl
  get-value_in k (n ∷ ns) = ground (arith, get-value_in k ns)

  pub get_value :
      (b : KBucket T V) (k : Key T)
      → (elim (get b k) [ none ↦ none | some n ↦ some n.value ]) ≡ value_in k b.nodes
  unfolding get
  get_value b k = ground (arith, get-value_in k b.nodes)

  pub position-none :
      (k : Key T) (ns : List (Node T V))
      → position (has_key k) ns ≡ none
      → All (λ n. n.key.bytes ≢ k.bytes) ns × (value_in k ns ≡ none)
  position-none k [] e = (tt, refl)
  position-none k (n ∷ ns) e = ground (arith, position-none k ns)

  pub position-some :
      (k : Key T) (ns : List (Node T V)) (p : ℕ)
      → position (has_key k) ns ≡ some p
      → (v : V) × (value_in k ns ≡ some v)
  position-some k [] p e = cc
  position-some k (n ∷ ns) p e = elim (Bool-cases (has_key k n)) [
    | inl t ↦ (n.value, rw t refl)
    | inr f ↦ elim (Option-cases (position (has_key k) ns)) [
      | inl q ↦ ground arith
      | inr (q, eq) ↦ let (v, r) = position-some k ns q eq in (v, rw f r)
    ]
  ]

  pub value_in-append :
      (k : Key T) (ns : List (Node T V)) (n : Node T V)
      → All (λ m. m.key.bytes ≢ n.key.bytes) ns
      → value_in k (ns ++ (n ∷ [])) ≡ (if has_key k n then some n.value else value_in k ns)
  value_in-append k [] n h = refl
  value_in-append k (m ∷ ns) n h = ground (arith, value_in-append k ns n)

  pub value_in-set_first :
      (j k : Key T) (v : V) (ns : List (Node T V))
      → value_in j (set_first k v ns) ≡ (
          if j.bytes == k.bytes
          then elim (value_in k ns) [ none ↦ none | some w ↦ some v ]
          else value_in j ns)
  unfolding set_first
  value_in-set_first j k v [] = ground arith
  value_in-set_first j k v (n ∷ ns) = ground (arith, value_in-set_first j k v ns)

  none_of_absent :
      (k : Key T) (ns : List (Node T V))
      → All (λ n. n.key.bytes ≢ k.bytes) ns
      → value_in k ns ≡ none
  none_of_absent k [] h = refl
  none_of_absent k (n ∷ ns) h = ground (arith, none_of_absent k ns)

  All-bytes :
      (a b : ℕ) (ns : List (Node T V))
      → a ≡ b
      → All (λ n. n.key.bytes ≢ a) ns
      → All (λ n. n.key.bytes ≢ b) ns
  All-bytes a b ns e h = rw e at h

  pub value_in-remove_at :
      (j k : Key T) (ns : List (Node T V)) (p : ℕ)
      → Distinct ns
      → position (has_key k) ns ≡ some p
      → value_in j (remove_at p ns) ≡ (if j.bytes == k.bytes then none else value_in j ns)
  value_in-remove_at j k [] p d e = cc
  value_in-remove_at j k (n ∷ ns) zero d e =
      ground (arith, λ (q : n.key.bytes ≡ j.bytes). none_of_absent j ns (All-bytes _ _ ns q d.0))
  value_in-remove_at j k (n ∷ ns) (suc p) d e = ground (arith, value_in-remove_at j k ns p d.1)

  pub All-remove_at {μ} :
      (P : Node T V → Type μ) (p : ℕ) (ns : List (Node T V)) → All P ns → All P (remove_at p ns)
  All-remove_at P p [] h = h
  All-remove_at P zero (n ∷ ns) h = h.1
  All-remove_at P (suc p) (n ∷ ns) h = (h.0, All-remove_at P p ns h.1)

  pub Distinct-remove_at : (p : ℕ) (ns : List (Node T V)) → Distinct ns → Distinct (remove_at p ns)
  Distinct-remove_at p [] h = h
  Distinct-remove_at zero (n ∷ ns) h = h.1
  Distinct-remove_at (suc p) (n ∷ ns) h = (All-remove_at _ p ns h.0, Distinct-remove_at p ns h.1)

  pub length-remove_at-le : (p : ℕ) (ns : List (Node T V)) → length (remove_at p ns) ≤ length ns
  length-remove_at-le p [] = omega arith
  length-remove_at-le zero (n ∷ ns) = omega arith
  length-remove_at-le (suc p) (n ∷ ns) = omega (arith, length-remove_at-le p ns)

  pub Distinct-append :
      (ns : List (Node T V)) (n : Node T V)
      → Distinct ns
      → All (λ m. m.key.bytes ≢ n.key.bytes) ns
      → Distinct (ns ++ (n ∷ []))
  Distinct-append [] n d h = (tt, tt)
  Distinct-append (m ∷ ns) n d h =
      (All-append _ ns (n ∷ []) d.0 (λ e. h.0 (cc), tt), Distinct-append ns n d.1 h.1)

  -- A predicate on keys does not see the write of a value.
  pub All-set_first {μ} :
      (P : Key T → Type μ) (k : Key T) (v : V) (ns : List (Node T V))
      → All (λ n. P n.key) ns
      → All (λ n. P n.key) (set_first k v ns)
  unfolding set_first
  All-set_first P k v [] h = h
  All-set_first P k v (n ∷ ns) h = elim (Bool-cases (has_key k n)) [
    | inl t ↦ rw t h
    | inr f ↦ rw f (h.0, All-set_first P k v ns h.1)
  ]

  pub Distinct-set_first :
      (k : Key T) (v : V) (ns : List (Node T V)) → Distinct ns → Distinct (set_first k v ns)
  unfolding set_first
  Distinct-set_first k v [] h = h
  Distinct-set_first k v (n ∷ ns) h = elim (Bool-cases (has_key k n)) [
    | inl t ↦ rw t h
    | inr f ↦
        rw f (All-set_first (λ m. m.bytes ≢ n.key.bytes) k v ns h.0, Distinct-set_first k v ns h.1)
  ]

  pub length-set_first :
      (k : Key T) (v : V) (ns : List (Node T V)) → length (set_first k v ns) ≡ length ns
  unfolding set_first
  length-set_first k v [] = refl
  length-set_first k v (n ∷ ns) = ground (arith, length-set_first k v ns)
