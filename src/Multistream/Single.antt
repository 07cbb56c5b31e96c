-- ===== src/Multistream/Single.antt =====
-- A message that names one protocol (core/src/multistream/protocol.rs).
use libp2p_rs.Common.{
  ℕ, ◌-◌, ◌≤◌, ◌<◌, ◌≡◌, refl, true, false, List, [], ◌∷◌, ◌++◌, length, take, length-append,
  take-append, arith, le→leb,
}
use libp2p_rs.Multistream.Uvi.{Uvi}
use libp2p_rs.Multistream.Message.{
  ok, protocol, starts_with_slash, try_from, same_bytes, ends_with_newline, is_single, encode,
  decode, msg_multistream_1_0, max_protocol_len,
}

-- A name that `try_from` takes.
unfoldable pub IsName : List ℕ → Type 0
IsName p = (starts_with_slash p ≡ true) × (length p ≤ max_protocol_len)

pub try_from-ok : (p : List ℕ) → IsName p → try_from p ≡ ok p
unfolding try_from IsName
try_from-ok p h = ground (arith, h)

ends-append : (p : List ℕ) → ends_with_newline (p ++ (10 ∷ [])) ≡ true
unfolding ends_with_newline
ends-append [] = refl
ends-append (a ∷ []) = refl
ends-append (a ∷ b ∷ p) = ends-append (b ∷ p)

starts-append : (p q : List ℕ) → starts_with_slash p ≡ true → starts_with_slash (p ++ q) ≡ true
unfolding starts_with_slash
starts-append [] q h = absurd (ground (arith, h))
starts-append (b ∷ p) q h = h

-- With its newline the name has 140 bytes at most, and it is not taken for the header.
unfoldable pub IsSingle : List ℕ → Type 0
IsSingle p =
    (starts_with_slash p ≡ true)
    × ((length p < max_protocol_len) × (same_bytes (p ++ (10 ∷ [])) msg_multistream_1_0 ≡ false))

IsSingle-is_single : (p : List ℕ) → IsSingle p → is_single (p ++ (10 ∷ [])) ≡ true
unfolding is_single IsSingle
IsSingle-is_single p h =
    rw (starts-append p (10 ∷ []) h.0, ends-append p) (le→leb _ max_protocol_len size)
  where
    size : length (p ++ (10 ∷ [])) ≤ max_protocol_len
    size = omega (arith, length-append p (10 ∷ []), h.1.0)

name_part : (p : List ℕ) → take (length (p ++ (10 ∷ [])) - 1) (p ++ (10 ∷ [])) ≡ p
name_part p =
    let size : length (p ++ (10 ∷ [])) - 1 ≡ length p = omega (arith, length-append p (10 ∷ [])) in
    rw size (take-append p (10 ∷ []))

pub decode-protocol :
    (v : Uvi) (p : List ℕ) → IsSingle p → decode v (encode v (protocol p)) ≡ ok (protocol p)
unfolding decode encode IsSingle IsName
decode-protocol v p h =
    rw
      (
        h.1.1,
        IsSingle-is_single p h,
        name_part p,
        try_from-ok p (h.0, omega (arith, h.1.0)),
        decode,
        encode,
      )
      refl
