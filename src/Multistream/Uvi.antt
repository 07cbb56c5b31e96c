-- ===== src/Multistream/Uvi.antt =====
-- The crate `unsigned_varint` as far as core/src/multistream/protocol.rs calls it: a `usize` as
-- groups of 7 bits, with the high bit set on every byte but the last.
use libp2p_rs.Common.{ℕ, ◌≤◌, ◌<◌, ◌^◌, ◌≡◌, Option, some, List, [], ◌∷◌, ◌++◌}

-- `decode` gives the number at the front and what comes after it.
pub record Uvi : Type 0 where
  pub encode_usize : ℕ → List ℕ
  pub decode_usize : List ℕ → Option (ℕ × List ℕ)
  pub decode-encode :
      (n : ℕ) (rest : List ℕ) → n < 2 ^ 64 → decode_usize (encode_usize n ++ rest) ≡ some (n, rest)
  pub encode-small : (n : ℕ) → n < 128 → encode_usize n ≡ n ∷ []
  pub encode-large :
      (n : ℕ) → 128 ≤ n → (b : ℕ) × ((bs : List ℕ) × ((encode_usize n ≡ b ∷ bs) × (128 ≤ b)))
