-- ===== src/Multistream/Tests.antt =====
-- The theorems on multistream-select at a concrete list of protocols and a concrete message.
use libp2p_rs.Common.{◌≡◌, refl, [], ◌∷◌, arith}
use libp2p_rs.Multistream.Message.{Message, protocols, ok, encode, decode, starts_with_slash}
use libp2p_rs.Multistream.Single.{IsName}
use libp2p_rs.Multistream.RoundTrip.{IsSendable, decode-encode_message}
use libp2p_rs.Multistream.Model.{native_uvi, native_uvi16}
use libp2p_rs.Multistream.LengthDelimited.{
  done, send_message, recv_message, recv_message-send_message,
}
use libp2p_rs.Common.{ℕ, List, some, ◌++◌, ◌+◌, ◌*◌, ◌≤◌, All, length}
use libp2p_rs.Multistream.Message.{try_from, same_bytes}
use libp2p_rs.Multistream.Single.{IsSingle}
use libp2p_rs.Multistream.Negotiator.{Negotiator, new_with_protocols, valid_protocols, find_name}
use libp2p_rs.Multistream.Negotiation.Joint.{Steps, stay, connected, IsSettled, listening}
use libp2p_rs.Multistream.Negotiation.Stages.{IsOffer}
use libp2p_rs.Multistream.Negotiation.Verdict.{
  verdict, settles, ending, outcome_name, chosen, called, first_common,
}
use libp2p_rs.Multistream.Negotiation.Agreement.{agreement, IsFaithful}

abbrev listing : Message
listing = protocols ((47 ∷ 97 ∷ []) ∷ (47 ∷ 98 ∷ 99 ∷ []) ∷ [])

listing-IsSendable : IsSendable listing
unfolding IsSendable IsName starts_with_slash
listing-IsSendable = (omega arith, ((refl, omega arith), ((refl, omega arith), tt)))

decode-encode_message_example : decode native_uvi (encode native_uvi listing) ≡ ok listing
decode-encode_message_example = decode-encode_message native_uvi listing listing-IsSendable

recv_message-send_message_example :
    (bytes : List ℕ) × ((send_message native_uvi16 (1 ∷ 2 ∷ []) ≡ some bytes)
      × (recv_message native_uvi16 (bytes ++ (9 ∷ [])) ≡ done (1 ∷ 2 ∷ []) (9 ∷ [])))
recv_message-send_message_example =
    recv_message-send_message native_uvi16 (1 ∷ 2 ∷ []) (9 ∷ []) (omega arith)

-- "/a", "/b" and "/c": the dialer would have the first two, the listener the last two.
abbrev dialed_protocols : Negotiator (List ℕ)
dialed_protocols = new_with_protocols (λ n. n) ((47 ∷ 97 ∷ []) ∷ (97 ∷ []) ∷ (47 ∷ 98 ∷ []) ∷ [])

abbrev listened_protocols : Negotiator (List ℕ)
listened_protocols = new_with_protocols (λ n. n) ((47 ∷ 99 ∷ []) ∷ (47 ∷ 98 ∷ []) ∷ [])

dialed-IsOffer : All (IsOffer (λ n. n)) dialed_protocols.protocols
unfolding new_with_protocols valid_protocols try_from starts_with_slash IsOffer IsSingle same_bytes
dialed-IsOffer = ((refl, (refl, (omega arith, refl))), ((refl, (refl, (omega arith, refl))), tt))

listened-IsFaithful : All (IsFaithful (λ n. n)) listened_protocols.protocols
unfolding new_with_protocols valid_protocols try_from starts_with_slash IsFaithful
listened-IsFaithful = (refl, (refl, tt))

settles_example :
    (m : ℕ) × (Steps native_uvi
        (λ n. n)
        dialed_protocols
        listened_protocols
        m
        connected
        (verdict dialed_protocols listened_protocols)
      × ((0 + m ≤ 4 * length dialed_protocols.protocols + 6)
          × IsSettled native_uvi
              (λ n. n)
              dialed_protocols
              listened_protocols
              (verdict dialed_protocols listened_protocols)))
settles_example =
    settles native_uvi (λ n. n) dialed_protocols listened_protocols dialed-IsOffer 0 connected
      (stay connected)

-- The listener has selected "/b" once the negotiation has come to its end.
agreement_example :
    (x y : List ℕ) × ((first_common dialed_protocols.protocols listened_protocols.protocols
        ≡ some (x, y))
      × ((x ≡ y)
          × ((chosen listening (verdict dialed_protocols listened_protocols) ≡ some y)
              × (called listening x y ≡ 47 ∷ 98 ∷ []))))
unfolding chosen verdict ending outcome_name first_common new_with_protocols valid_protocols
    try_from starts_with_slash find_name same_bytes
agreement_example =
    agreement native_uvi (λ n. n) dialed_protocols listened_protocols dialed-IsOffer
      listened-IsFaithful settles_example.0 (verdict dialed_protocols listened_protocols) listening
      (47 ∷ 98 ∷ []) settles_example.1.0 refl
