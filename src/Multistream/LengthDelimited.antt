-- ===== src/Multistream/LengthDelimited.antt =====
-- core/src/multistream/length_delimited.rs: messages behind their length on a stream of bytes. What
-- is left to read is a list of bytes; at its end a read fails.
use libp2p_rs.Common.{
  ℕ, zero, suc, ◌≤◌, ◌<◌, ◌≡◌, refl, ap, ◌∙◌, Bool, true, false, Option, none, some, List, [], ◌∷◌,
  ◌++◌, ltb, leb, if◌then◌else◌, length, take, drop, take-append, drop-append, length-append,
  append_assoc, arith, le→leb, le→ltb,
}

-- The bytes of a number: none but the last one is a last byte.
unfoldable pub IsEncoded : (ℕ → Bool) → List ℕ → Type 0
IsEncoded is_last [] = 0 < 0
IsEncoded is_last (b ∷ []) = is_last b ≡ true
IsEncoded is_last (b ∷ c ∷ bs) = (is_last b ≡ false) × IsEncoded is_last (c ∷ bs)

-- The crate `unsigned_varint` as far as this file calls it.
pub record Uvi16 : Type 0 where
  pub encode_u16 : ℕ → List ℕ
  pub decode_u16 : List ℕ → Option (ℕ × List ℕ)
  pub is_last : ℕ → Bool
  pub encode-IsEncoded : (n : ℕ) → n < 65536 → IsEncoded is_last (encode_u16 n)
  pub length-encode-le : (n : ℕ) → n < 65536 → length (encode_u16 n) ≤ 3
  pub decode-encode : (n : ℕ) → n < 65536 → decode_u16 (encode_u16 n) ≡ some (n, [])

pub data IoError : Type 0 where
  unexpected_eof invalid_varint overflow length_exceeded size_exceeded : IoError

pub data Read {ℓ} (A : Type ℓ) : Type ℓ where
  failed : IoError → Read A
  done : A → List ℕ → Read A

abbrev pub max_frame_size : ℕ
max_frame_size = 16383

module _ (v : Uvi16) where
  unfoldable pub decode_prefix : List ℕ → List ℕ → Read ℕ
  decode_prefix pre rest = elim (v.decode_u16 pre) [
    | none ↦ failed invalid_varint
    | some (n, _) ↦ done n rest
  ]

  -- The rounds of the loop over the buffer, of which `pre` is filled.
  unfoldable pub read_from : (rounds : ℕ) → List ℕ → List ℕ → Read ℕ
  read_from zero pre bytes = failed overflow
  read_from (suc n) pre [] = failed unexpected_eof
  read_from (suc n) pre (b ∷ bs) =
      let more = read_from n (pre ++ (b ∷ [])) bs in
      if v.is_last b then decode_prefix (pre ++ (b ∷ [])) bs else more

  unfoldable pub read_unsigned_varint : List ℕ → Read ℕ
  read_unsigned_varint bytes = read_from 3 [] bytes

  unfoldable pub recv_body : ℕ → List ℕ → Read (List ℕ)
  recv_body len bytes =
      if ltb max_frame_size len
      then failed length_exceeded
      else if ltb (length bytes) len
      then failed unexpected_eof
      else done (take len bytes) (drop len bytes)

  unfoldable pub recv_message : List ℕ → Read (List ℕ)
  recv_message bytes = elim (read_unsigned_varint bytes) [
    | failed e ↦ failed e
    | done len rest ↦ recv_body len rest
  ]

  -- The bytes that are written, or none when the message is too long.
  unfoldable pub send_message : List ℕ → Option (List ℕ)
  send_message buf =
      if leb (length buf) max_frame_size then some (v.encode_u16 (length buf) ++ buf) else none

  read_from-lem :
      (bs pre rest : List ℕ) (rounds : ℕ)
      → IsEncoded v.is_last bs
      → length bs ≤ rounds
      → read_from rounds pre (bs ++ rest) ≡ decode_prefix (pre ++ bs) rest
  unfolding read_from IsEncoded
  read_from-lem [] pre rest rounds t l = absurd (omega (arith, t))
  read_from-lem (b ∷ []) pre rest zero t l = absurd (omega arith)
  read_from-lem (b ∷ []) pre rest (suc n) t l = rw t refl
  read_from-lem (b ∷ c ∷ bs) pre rest zero t l = absurd (omega arith)
  read_from-lem (b ∷ c ∷ bs) pre rest (suc n) t l = rw (t.0) (
      read_from-lem (c ∷ bs) (pre ++ (b ∷ [])) rest n t.1 (omega arith)
      ∙ ap (λ p. decode_prefix p rest) (append_assoc pre (b ∷ []) (c ∷ bs)))

  read_unsigned_varint-encode :
      (n : ℕ) (rest : List ℕ)
      → n < 65536
      → read_unsigned_varint (v.encode_u16 n ++ rest) ≡ done n rest
  unfolding read_unsigned_varint decode_prefix
  read_unsigned_varint-encode n rest h =
      read_from-lem (v.encode_u16 n) [] rest 3 (v.encode-IsEncoded n h) (v.length-encode-le n h)
      ∙ rw (v.decode-encode n h, decode_prefix) refl

  -- Whatever the varint codec of 16 bits that keeps its laws, a message of at most 16383 bytes is
  -- written, and is read back with what follows left on the stream.
  pub recv_message-send_message :
      (buf rest : List ℕ)
      → length buf ≤ max_frame_size
      → (bytes : List ℕ) × ((send_message buf ≡ some bytes)
          × (recv_message (bytes ++ rest) ≡ done buf rest))
  unfolding send_message recv_message recv_body
  recv_message-send_message buf rest l =
      let size : ltb (length (buf ++ rest)) (length buf) ≡ false =
        le→ltb _ _ (omega (arith, length-append buf rest)) in
      (
        v.encode_u16 (length buf) ++ buf,
        (
          rw (le→leb (length buf) max_frame_size l) refl,
          rw
              (
                append_assoc (v.encode_u16 (length buf)) buf rest,
                read_unsigned_varint-encode (length buf) (buf ++ rest) (omega arith),
                le→ltb max_frame_size (length buf) l,
                size,
                take-append buf rest,
                drop-append buf rest,
                recv_message,
                recv_body,
              )
              refl,
        ),
      )
