-- ===== src/Kad/Key.antt =====
-- protocols/kad/src/kbucket/key.rs: the keyspace and its XOR metric.
-- A `KeyBytes` (32 bytes) is the integer below 2 ^ 256 that `U256::from` reads from it.
pub mod Xor
pub mod Metric
pub mod Model
use libp2p_rs.Common.{
  ℕ, ◌+◌, ◌-◌, ◌*◌, ◌/◌, ◌%◌, ◌^◌, ◌≤◌, ◌<◌, ◌≡◌, ◌↔◌, Bool, true, Option, none, some, leb,
  if◌then◌else◌,
}

-- `primitive_types::U256`, a crate that the code calls: bitwise XOR, the count of leading zeros and
-- the test of one bit, with the meaning that its documentation gives them.
pub record U256 : Type 0 where
  pub xor : ℕ → ℕ → ℕ
  pub leading_zeros : ℕ → ℕ
  pub bit : ℕ → ℕ → Bool
  pub xor_digit : (a b : ℕ) → xor a b ≡ xor (a / 2) (b / 2) * 2 + (a % 2 + b % 2) % 2
  pub leading_zeros-le : (d : ℕ) → leading_zeros d ≤ 256
  pub leading_zeros-above : (d : ℕ) → d < 2 ^ 256 → d < 2 ^ (256 - leading_zeros d)
  pub leading_zeros-below : (d : ℕ) → leading_zeros d < 256 → 2 ^ (255 - leading_zeros d) ≤ d
  pub bit_iff : (d i : ℕ) → (bit d i ≡ true) ↔ (d / 2 ^ i % 2 ≡ 1)

-- A key with its preimage.
pub record Key {ℓ} (T : Type ℓ) : Type ℓ where
  pub preimage : T
  pub bytes : ℕ

module _ {ℓ} {T : Type ℓ} where
  -- The hash is `Sha256::digest`, an argument of the model.
  unfoldable pub new : (T → ℕ) → T → Key T
  new digest preimage = record { preimage = preimage; bytes = digest preimage }

module _ (u : U256) where
  unfoldable pub distance : ℕ → ℕ → ℕ
  distance a b = u.xor a b

  unfoldable pub for_distance : ℕ → ℕ → ℕ
  for_distance a d = u.xor a d

  -- `(256 - d.leading_zeros()).checked_sub(1)`
  unfoldable pub ilog2 : ℕ → Option ℕ
  ilog2 d = let bits = 256 - u.leading_zeros d in if leb 1 bits then some (bits - 1) else none
