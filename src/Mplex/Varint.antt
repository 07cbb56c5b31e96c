-- ===== src/Mplex/Varint.antt =====
-- The crate `unsigned_varint` as far as protocols/mplex/src/frame/length_delimited.rs calls it: a
-- number of 32 bits as groups of 7 bits, with the high bit set on every byte but the last.
use libp2p_rs.Common.{ℕ, ◌≤◌, ◌<◌, ◌^◌, ◌≡◌, Option, some, List, [], ◌∷◌, ◌++◌, length}

-- A list of bytes whose last one is the first below 128.
unfoldable pub IsTerminated : List ℕ → Type 0
IsTerminated [] = 0 < 0
IsTerminated (b ∷ []) = b < 128
IsTerminated (b ∷ c ∷ bs) = (128 ≤ b) × IsTerminated (c ∷ bs)

-- `decode` gives the number at the front and what comes after it.
pub record Varint : Type 0 where
  pub encode_u32 : ℕ → List ℕ
  pub decode_u32 : List ℕ → Option (ℕ × List ℕ)
  pub encode-IsTerminated : (n : ℕ) → n < 2 ^ 32 → IsTerminated (encode_u32 n)
  pub length-encode-le : (n : ℕ) → n < 2 ^ 32 → length (encode_u32 n) ≤ 5
  pub decode-encode :
      (n : ℕ) (rest : List ℕ) → n < 2 ^ 32 → decode_u32 (encode_u32 n ++ rest) ≡ some (n, rest)
