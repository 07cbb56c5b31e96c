-- ===== src/Kad/Bucket.antt =====
-- protocols/kad/src/kbucket/bucket.rs: one k-bucket, a list of at most K_VALUE nodes (an `ArrayVec`).
-- A key is compared by its bytes.
pub mod Laws
use libp2p_rs.Common.{
  ℕ, zero, suc, ◌+◌, ◌<◌, Bool, true, false, Option, none, some, List, [], ◌∷◌, ◌++◌, ltb, ◌==◌,
  if◌then◌else◌, length, get_elem?, position,
}
use libp2p_rs.Kad.Key.{Key}

-- K_VALUE of protocols/kad/src/lib.rs.
abbrev pub k_value : ℕ
k_value = 20

pub record Node {ℓ κ} (T : Type ℓ) (V : Type κ) : Type (ℓ ⊔ κ) where
  pub key : Key T
  pub value : V

pub record KBucket {ℓ κ} (T : Type ℓ) (V : Type κ) : Type (ℓ ⊔ κ) where
  pub nodes : List (Node T V)

-- `Vec::remove` at an index in range.
abbrev pub remove_at {ℓ} : {A : Type ℓ} → ℕ → List A → List A
remove_at i [] = []
remove_at zero (x ∷ xs) = xs
remove_at (suc i) (x ∷ xs) = x ∷ remove_at i xs

-- The write that a `&mut` to one element allows.
abbrev pub update_at {ℓ} : {A : Type ℓ} → ℕ → (A → A) → List A → List A
update_at i f [] = []
update_at zero f (x ∷ xs) = f x ∷ xs
update_at (suc i) f (x ∷ xs) = x ∷ update_at i f xs

module _ {ℓ κ} {T : Type ℓ} {V : Type κ} where
  abbrev pub has_key : Key T → Node T V → Bool
  has_key k n = n.key.bytes == k.bytes

  unfoldable pub empty : KBucket T V
  empty = record { nodes = [] }

  unfoldable pub position_of : KBucket T V → Key T → Option ℕ
  position_of b k = position (has_key k) b.nodes

  unfoldable pub get : KBucket T V → Key T → Option (Node T V)
  unfolding position_of
  get b k = elim (position_of b k) [ none ↦ none | some p ↦ get_elem? b.nodes p ]

  -- A full bucket takes no node.
  unfoldable pub insert : KBucket T V → Node T V → KBucket T V × Bool
  insert b n =
      if ltb (length b.nodes) k_value
      then (record { nodes = b.nodes ++ (n ∷ []) }, true)
      else (b, false)

  unfoldable pub remove : KBucket T V → Key T → KBucket T V × Option ℕ
  unfolding position_of
  remove b k = elim (position_of b k) [
    | none ↦ (b, none)
    | some p ↦ (record { nodes = remove_at p b.nodes }, some p)
  ]

  unfoldable pub num_entries : KBucket T V → ℕ
  num_entries b = length b.nodes

  unfoldable pub set_first : Key T → V → List (Node T V) → List (Node T V)
  set_first k v [] = []
  set_first k v (n ∷ ns) = if has_key k n then record n { value = v } ∷ ns else n ∷ set_first k v ns

  -- `get_mut`, with the value that is written through the reference.
  unfoldable pub set_value : KBucket T V → Key T → V → KBucket T V
  unfolding set_first
  set_value b k v = record { nodes = set_first k v b.nodes }
