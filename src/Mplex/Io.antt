-- ===== src/Mplex/Io.antt =====
-- protocols/mplex/src/frame/length_delimited.rs and protocols/mplex/src/frame/io.rs: frames on a
-- stream of bytes. What is left to read is a list of bytes; at its end a read fails.
use libp2p_rs.Common.{
  ℕ, zero, suc, ◌%◌, ◌^◌, Option, none, some, List, [], ◌∷◌, ◌++◌, ltb, ◌==◌, if◌then◌else◌, length,
  set, take, drop, replicate,
}
use libp2p_rs.Mplex.Header.{
  StreamId, new_stream, message, close, reset, Header, encode, header, unknown_tag, decode,
}
use libp2p_rs.Mplex.Varint.{Varint}

pub data IoError : Type 0 where
  unexpected_eof invalid_length frame_size_exceeded : IoError

-- The outcome of a read, with what is left on the stream.
pub data Read {ℓ} (A : Type ℓ) : Type ℓ where
  failed : IoError → Read A
  done : A → List ℕ → Read A

pub record Frame : Type 0 where
  pub header : Header
  pub body : List ℕ

unfoldable pub new_stream_frame : StreamId → List ℕ → Frame
new_stream_frame id body = record {
  header = record { stream_id = id; tag = new_stream };
  body = body;
}

unfoldable pub message_frame : StreamId → List ℕ → Frame
message_frame id body = record { header = record { stream_id = id; tag = message }; body = body }

unfoldable pub close_frame : StreamId → Frame
close_frame id = record { header = record { stream_id = id; tag = close }; body = [] }

unfoldable pub reset_frame : StreamId → Frame
reset_frame id = record { header = record { stream_id = id; tag = reset }; body = [] }

pub data FrameDecodeError : Type 0 where
  io : IoError → FrameDecodeError
  header_tag : ℕ → FrameDecodeError
  frame_too_large : ℕ → FrameDecodeError

pub data Received : Type 0 where
  refused : FrameDecodeError → Received
  received : Frame → List ℕ → Received

abbrev pub max_message_size : ℕ
max_message_size = 1048576

abbrev pub u32_len : ℕ
u32_len = 5

unfoldable pub read_body : ℕ → List ℕ → Read (List ℕ)
read_body n bytes =
    if ltb (length bytes) n then failed unexpected_eof else done (take n bytes) (drop n bytes)

module _ (v : Varint) where
  -- The number of the buffer, with the zeros that pad it.
  unfoldable pub decode_buffer : List ℕ → List ℕ → Read ℕ
  decode_buffer buf rest = elim (v.decode_u32 buf) [
    | none ↦ failed invalid_length
    | some (n, _) ↦ done n rest
  ]

  -- The rounds of the loop from position `pos` on; after the last one the answer is 0.
  unfoldable pub read_from : (rounds pos : ℕ) → List ℕ → List ℕ → Read ℕ
  read_from zero pos buf bytes = done 0 bytes
  read_from (suc n) pos buf [] = failed unexpected_eof
  read_from (suc n) pos buf (b ∷ bs) =
      let more = read_from n (suc pos) (set buf pos b) bs in
      if ltb b 128 then decode_buffer (set buf pos b) bs else more

  unfoldable pub read_uvarint : List ℕ → Read ℕ
  read_uvarint bytes = read_from u32_len 0 (replicate u32_len 0) bytes

  unfoldable pub recv_body : Header → ℕ → List ℕ → Received
  recv_body h len bytes =
      if ltb max_message_size len
      then refused (frame_too_large len)
      else if len == 0
      then received (record { header = h; body = [] }) bytes
      else elim (read_body len bytes) [
        | failed e ↦ refused (io e)
        | done body rest ↦ received (record { header = h; body = body }) rest
      ]

  unfoldable pub recv_length : Header → List ℕ → Received
  recv_length h bytes = elim (read_uvarint bytes) [
    | failed e ↦ refused (io e)
    | done len rest ↦ recv_body h len rest
  ]

  unfoldable pub recv_frame : List ℕ → Received
  recv_frame bytes = elim (read_uvarint bytes) [
    | failed e ↦ refused (io e)
    | done b rest ↦ elim (decode b) [
      | unknown_tag t ↦ refused (header_tag t)
      | header h ↦ recv_length h rest
    ]
  ]

  unfoldable pub write_header : ℕ → List ℕ
  write_header hdr = v.encode_u32 hdr

  unfoldable pub write_length : ℕ → Option (List ℕ)
  write_length len = if ltb max_message_size len then none else some (v.encode_u32 len)

  -- The bytes that are written, with the error that ends the writing.
  unfoldable pub send_frame : Frame → List ℕ × Option IoError
  send_frame f = elim (write_length (length f.body % 2 ^ 32)) [
    | none ↦ (write_header (encode f.header), some frame_size_exceeded)
    | some prefix ↦ (write_header (encode f.header) ++ (prefix ++ f.body), none)
  ]
