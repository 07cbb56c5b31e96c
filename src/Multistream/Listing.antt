-- ===== src/Multistream/Listing.antt =====
-- A message that lists protocols (core/src/multistream/protocol.rs): its names are read back, and it
-- is not taken for a message of another kind.
use libp2p_rs.Common.{
  ℕ, suc, ◌*◌, ◌-◌, ◌^◌, ◌≤◌, ◌<◌, ◌≡◌, ◌⊎◌, refl, true, false, inl, inr, List, [], ◌∷◌, ◌++◌, ltb,
  ◌==◌, length, drop, All, length-append, append_assoc, take-append, drop-append, get_elem?-append,
  arith, Bool-cases, ltb→lt, ltb_false→le, le→ltb,
}
use libp2p_rs.Multistream.Uvi.{Uvi}
use libp2p_rs.Multistream.Message.{
  ok, starts_with_slash, same_bytes, is_single, encode_names, decode_name, decode_names,
}
use libp2p_rs.Multistream.Single.{IsName, try_from-ok}

same_bytes-length : (xs ys : List ℕ) → same_bytes xs ys ≡ true → length xs ≡ length ys
unfolding same_bytes
same_bytes-length [] [] h = refl
same_bytes-length [] (y ∷ ys) h = absurd (ground (arith, h))
same_bytes-length (x ∷ xs) [] h = absurd (ground (arith, h))
same_bytes-length (x ∷ xs) (y ∷ ys) h = ground (arith, h, same_bytes-length xs ys)

-- The bytes of a list of `n` names begin with `n` and go on for 3 bytes or more a name, or they begin
-- with a byte that no other message begins with.
pub IsFront : ℕ → ℕ → List ℕ → Type 0
IsFront n b bs = ((b ≡ n) × (3 * n ≤ length bs)) ⊎ (128 ≤ b)

pub not_same :
    (n b c : ℕ) (bs cs : List ℕ)
    → IsFront n b bs
    → length cs < 3 * c
    → c < 128
    → same_bytes (b ∷ bs) (c ∷ cs) ≡ false
unfolding IsFront same_bytes
not_same n b c bs cs h l s = ground (arith, h, l, s, same_bytes-length bs cs)

pub not_single : (n b : ℕ) (bs : List ℕ) → IsFront n b bs → is_single (b ∷ bs) ≡ false
unfolding IsFront is_single starts_with_slash
not_single n b bs h = ground (arith, h)

not_zero : (n : ℕ) → (suc n == 0) ≡ false
not_zero n = ground arith

pred : (n : ℕ) → suc n - 1 ≡ n
pred n = omega arith

name_pos : (p : List ℕ) → IsName p → 0 < length p
unfolding IsName starts_with_slash
name_pos [] h = absurd (ground (arith, h))
name_pos (b ∷ p) h = omega arith

short : (p : List ℕ) → IsName p → suc (length p) < 2 ^ 64
unfolding IsName
short p h = omega (arith, h.1)

room : (p tail : List ℕ) → ltb (length (p ++ (10 ∷ tail))) (suc (length p)) ≡ false
room p tail = le→ltb _ _ (omega (arith, length-append p (10 ∷ tail)))

module _ (v : Uvi) where
  encode_usize_pos : (n : ℕ) → 0 < length (v.encode_usize n)
  encode_usize_pos n = elim (Bool-cases (ltb n 128)) [
    | inl t ↦ rw (v.encode-small n (ltb→lt n 128 t)) (omega arith)
    | inr f ↦ let large = v.encode-large n (ltb_false→le n 128 f) in rw (large.1.1.0) (omega arith)
  ]

  pub encode_names-length :
      (ps : List (List ℕ)) → All IsName ps → 3 * length ps ≤ length (encode_names v ps)
  unfolding encode_names
  encode_names-length [] h = omega arith
  encode_names-length (p ∷ ps) h = omega (
    arith,
    encode_names-length ps h.1,
    encode_usize_pos (suc (length p)),
    name_pos p h.0,
    length-append (v.encode_usize (suc (length p)) ++ (p ++ (10 ∷ []))) (encode_names v ps),
    length-append (v.encode_usize (suc (length p))) (p ++ (10 ∷ [])),
    length-append p (10 ∷ []),
  )

  pub front :
      (n : ℕ) (body : List ℕ)
      → 3 * n ≤ length body
      → (b : ℕ) × ((bs : List ℕ) × ((v.encode_usize n ++ body ≡ b ∷ bs) × IsFront n b bs))
  unfolding IsFront
  front n body h = elim (Bool-cases (ltb n 128)) [
    | inl t ↦ (n, (body, (rw (v.encode-small n (ltb→lt n 128 t)) refl, inl (refl, h))))
    | inr f ↦
        let large = v.encode-large n (ltb_false→le n 128 f) in
        (large.0, (large.1.0 ++ body, (rw (large.1.1.0) refl, inr large.1.1.1)))
  ]

  decode_name-lem :
      (p tail : List ℕ) → IsName p → decode_name (suc (length p)) ((p ++ (10 ∷ [])) ++ tail) ≡ ok p
  unfolding decode_name
  decode_name-lem p tail h =
      rw
        (
          append_assoc p (10 ∷ []) tail,
          not_zero (length p),
          room p tail,
          pred (length p),
          get_elem?-append p tail 10,
        )
        (rw (pred (length p), append_assoc p (10 ∷ []) tail, take-append p (10 ∷ tail))
          (try_from-ok p h))

  drop_name : (p tail : List ℕ) → drop (suc (length p)) ((p ++ (10 ∷ [])) ++ tail) ≡ tail
  drop_name p tail =
      let size : suc (length p) ≡ length (p ++ (10 ∷ [])) =
        omega (arith, length-append p (10 ∷ [])) in
      rw size (drop-append (p ++ (10 ∷ [])) tail)

  pub decode_names-lem :
      (ps : List (List ℕ)) → All IsName ps → decode_names v (length ps) (encode_names v ps) ≡ ok ps
  unfolding decode_names encode_names
  decode_names-lem [] h = refl
  decode_names-lem (p ∷ ps) h =
      rw
        (
          append_assoc (v.encode_usize (suc (length p))) (p ++ (10 ∷ [])) (encode_names v ps),
          v.decode-encode (suc (length p)) ((p ++ (10 ∷ [])) ++ encode_names v ps) (short p h.0),
          decode_name-lem p (encode_names v ps) h.0,
          drop_name p (encode_names v ps),
          decode_names-lem ps h.1,
        )
        refl
