-- ===== src/Mplex/Tests.antt =====
-- The theorems on the frames of mplex at concrete inputs.
use libp2p_rs.Common.{◌≡◌, refl, true, none, [], ◌∷◌, ◌++◌, arith}
use libp2p_rs.Mplex.Header.{
  StreamId, Header, message, encode, decode, header, seen_by_remote, decode-encode, val_unique,
}
use libp2p_rs.Mplex.Io.{Frame, message_frame, received, send_frame, recv_frame}
use libp2p_rs.Mplex.RoundTrip.{recv_frame-send_frame}
use libp2p_rs.Mplex.Model.{native_varint}

abbrev the_stream : StreamId
the_stream = record { id = 300; initiator = true }

abbrev the_header : Header
the_header = record { stream_id = the_stream; tag = message }

abbrev the_frame : Frame
the_frame = message_frame the_stream (7 ∷ 8 ∷ [])

decode-encode_example : decode (encode the_header) ≡ header (seen_by_remote the_header)
decode-encode_example = decode-encode the_header (omega arith)

val_unique_example : (the_stream.id ≡ the_stream.id) × (the_stream.initiator ≡ the_stream.initiator)
val_unique_example = val_unique the_stream the_stream (omega arith) (omega arith) refl

recv_frame-send_frame_example :
    ((send_frame native_varint the_frame).1 ≡ none)
    × (recv_frame native_varint ((send_frame native_varint the_frame).0 ++ (9 ∷ []))
        ≡ received
            (record { header = seen_by_remote the_frame.header; body = the_frame.body })
            (9 ∷ []))
unfolding message_frame
recv_frame-send_frame_example =
    recv_frame-send_frame native_varint the_frame (9 ∷ []) (omega arith) (omega arith)
