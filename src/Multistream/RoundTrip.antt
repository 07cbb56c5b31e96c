-- ===== src/Multistream/RoundTrip.antt =====
-- Messages of multistream-select (core/src/multistream/protocol.rs) are read back as they were sent.
use libp2p_rs.Common.{
  ℕ, ◌≤◌, ◌≡◌, refl, sym, ◌∙◌, subst, List, [], ◌∷◌, ◌++◌, length, drop, All, arith, le→ltb,
}
use libp2p_rs.Multistream.Uvi.{Uvi}
use libp2p_rs.Multistream.Message.{
  ok, Message, header, list_protocols, not_available, protocol, protocols, same_bytes, encode_names,
  encode, decode_protocols, decode, is_single, max_protocols, msg_multistream_1_0,
  starts_with_slash,
}
use libp2p_rs.Multistream.Single.{IsName, IsSingle, decode-protocol}
use libp2p_rs.Multistream.Listing.{
  IsFront, front, not_same, not_single, encode_names-length, decode_names-lem,
}

unfoldable pub IsSendable : Message → Type 0
unfolding IsName IsSingle
IsSendable header = Unit
IsSendable list_protocols = Unit
IsSendable not_available = Unit
IsSendable (protocol p) = IsSingle p
IsSendable (protocols ps) = (length ps ≤ max_protocols) × All IsName ps

module _ (v : Uvi) where
  decode-protocols :
      (ps : List (List ℕ))
      → length ps ≤ max_protocols
      → All IsName ps
      → decode_protocols v (v.encode_usize (length ps) ++ encode_names v ps) ≡ ok (protocols ps)
  unfolding decode_protocols
  decode-protocols ps l h =
      rw
        (
          v.decode-encode (length ps) (encode_names v ps) (omega arith),
          le→ltb max_protocols (length ps) l,
          decode_names-lem v ps h,
          decode_protocols,
        )
        refl

  only_listing :
      (msg : List ℕ) (n b : ℕ) (bs : List ℕ)
      → msg ≡ b ∷ bs
      → IsFront n b bs
      → decode v msg ≡ decode_protocols v msg
  unfolding decode
  only_listing msg n b bs e f =
      subst (λ m. decode v m ≡ decode_protocols v m) (sym e)
        (rw
          (
            not_same n b 47 bs (drop 1 msg_multistream_1_0) f (omega arith) (omega arith),
            not_single n b bs f,
            not_same n b 110 bs (97 ∷ 10 ∷ []) f (omega arith) (omega arith),
            not_same n b 108 bs (115 ∷ 10 ∷ []) f (omega arith) (omega arith),
            decode,
          )
          refl)

  -- Whatever the varint codec that keeps its laws, a header, a request for the list, a refusal, a
  -- name with a slash in front of at most 139 bytes that is not that of the header, and a list of
  -- at most 1000 names with a slash in front of at most 140 bytes each, are decoded from their
  -- bytes as the message they were.
  pub decode-encode_message : (m : Message) → IsSendable m → decode v (encode v m) ≡ ok m
  unfolding decode encode IsSendable same_bytes is_single starts_with_slash
  decode-encode_message header h = refl
  decode-encode_message list_protocols h = refl
  decode-encode_message not_available h = refl
  decode-encode_message (protocol p) h = decode-protocol v p h
  decode-encode_message (protocols ps) h =
      let f = front v (length ps) (encode_names v ps) (encode_names-length v ps h.1) in
      only_listing _ (length ps) f.0 f.1.0 f.1.1.0 f.1.1.1 ∙ decode-protocols ps h.0 h.1
