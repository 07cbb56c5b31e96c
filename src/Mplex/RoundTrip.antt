-- ===== src/Mplex/RoundTrip.antt =====
-- What protocols/mplex/src/frame/io.rs writes, it reads back.
use libp2p_rs.Common.{
  ℕ, zero, suc, ◌%◌, ◌^◌, ◌≤◌, ◌<◌, ◌≡◌, refl, sym, ap, ◌∙◌, false, none, List, [], ◌∷◌, ◌++◌, ◌==◌,
  length, set, replicate, take-append, drop-append, length-append, append_assoc, arith, lt→ltb,
  le→ltb,
}
use libp2p_rs.Mplex.Header.{Header, encode, seen_by_remote, decode-encode, encode-lt}
use libp2p_rs.Mplex.Varint.{Varint, IsTerminated}
use libp2p_rs.Mplex.Io.{
  done, Frame, received, read_body, decode_buffer, read_from, read_uvarint, recv_body, recv_length,
  recv_frame, write_header, write_length, send_frame, max_message_size,
}

set-append :
    (pre : List ℕ) (a b : ℕ) (post : List ℕ)
    → set (pre ++ (a ∷ post)) (length pre) b ≡ pre ++ (b ∷ post)
set-append [] a b post = refl
set-append (x ∷ pre) a b post = ap (◌∷◌ x) (set-append pre a b post)

not_zero : (n : ℕ) → (suc n == 0) ≡ false
not_zero n = ground arith

append_one : (pre : List ℕ) (b : ℕ) (post : List ℕ) → pre ++ (b ∷ post) ≡ (pre ++ (b ∷ [])) ++ post
append_one [] b post = refl
append_one (x ∷ pre) b post = ap (◌∷◌ x) (append_one pre b post)

module _ (v : Varint) where
  -- The loop reads a terminated list into the buffer behind what it has read before.
  read_from-lem :
      (bs pre rest : List ℕ) (rounds : ℕ)
      → IsTerminated bs
      → length bs ≤ rounds
      → (pad : ℕ) × (read_from v rounds (length pre) (pre ++ replicate rounds 0) (bs ++ rest)
          ≡ decode_buffer v (pre ++ (bs ++ replicate pad 0)) rest)
  unfolding IsTerminated read_from
  read_from-lem [] pre rest rounds t l = absurd (omega (arith, t))
  read_from-lem (b ∷ []) pre rest zero t l = absurd (omega arith)
  read_from-lem (b ∷ []) pre rest (suc n) t l =
      (n, rw (set-append pre 0 b (replicate n 0), lt→ltb b 128 t) refl)
  read_from-lem (b ∷ c ∷ bs) pre rest zero t l = absurd (omega arith)
  read_from-lem (b ∷ c ∷ bs) pre rest (suc n) t l =
      let after = read_from-lem (c ∷ bs) (pre ++ (b ∷ [])) rest n t.1 (omega arith) in
      let count : length (pre ++ (b ∷ [])) ≡ suc (length pre) =
        omega (arith, length-append pre (b ∷ [])) in
      (
        after.0,
        rw
            (
              set-append pre 0 b (replicate n 0),
              le→ltb b 128 t.0,
              append_one pre b (replicate n 0),
              append_one pre b ((c ∷ bs) ++ replicate after.0 0),
              sym count,
            )
            after.1,
      )

  read_uvarint-encode :
      (n : ℕ) (rest : List ℕ) → n < 2 ^ 32 → read_uvarint v (v.encode_u32 n ++ rest) ≡ done n rest
  unfolding read_uvarint decode_buffer
  read_uvarint-encode n rest h =
      let read =
        read_from-lem (v.encode_u32 n) [] rest 5 (v.encode-IsTerminated n h)
          (v.length-encode-le n h) in
      read.1 ∙ rw (v.decode-encode n (replicate read.0 0) h, decode_buffer) refl

  recv_body-append :
      (h : Header) (body rest : List ℕ)
      → length body ≤ max_message_size
      → recv_body v h (length body) (body ++ rest)
        ≡ received (record { header = h; body = body }) rest
  unfolding recv_body read_body
  recv_body-append h [] rest l = refl
  recv_body-append h (b ∷ bs) rest l =
      rw
        (
          le→ltb max_message_size (suc (length bs)) l,
          le→ltb (length ((b ∷ bs) ++ rest)) (suc (length bs))
              (omega (arith, length-append (b ∷ bs) rest)),
          not_zero (length bs),
          take-append bs rest,
          drop-append bs rest,
        )
        refl

  -- Whatever the varint codec that keeps its laws, a frame of a stream number below 2^29 and a
  -- body of at most 2^20 bytes is written without an error, and reading it back gives the same
  -- body and the header as the remote names the stream, with what follows left on the stream.
  pub recv_frame-send_frame :
      (f : Frame) (rest : List ℕ)
      → f.header.stream_id.id < 2 ^ 29
      → length f.body ≤ max_message_size
      → ((send_frame v f).1 ≡ none)
        × (recv_frame v ((send_frame v f).0 ++ rest)
            ≡ received (record { header = seen_by_remote f.header; body = f.body }) rest)
  unfolding send_frame write_header write_length recv_frame recv_length
  recv_frame-send_frame f rest i l =
      let fits : length f.body < 2 ^ 32 = omega arith in
      let same : length f.body % 2 ^ 32 ≡ length f.body = omega arith in
      let tail = v.encode_u32 (length f.body) ++ f.body in
      rw (same, le→ltb max_message_size (length f.body) l, send_frame, write_length)
        (
          refl,
          rw
              (
                append_assoc (v.encode_u32 (encode f.header)) tail rest,
                append_assoc (v.encode_u32 (length f.body)) f.body rest,
                read_uvarint-encode (encode f.header)
                    (v.encode_u32 (length f.body) ++ (f.body ++ rest)) (encode-lt f.header),
                decode-encode f.header i,
                read_uvarint-encode (length f.body) (f.body ++ rest) fits,
                recv_frame,
                recv_length,
              )
              (recv_body-append (seen_by_remote f.header) f.body rest l),
        )
