-- ===== src/Mplex/Header.antt =====
-- protocols/mplex/src/frame/header.rs: the header of a frame as a number of 32 bits.
use libp2p_rs.Common.{
  ℕ, ◌+◌, ◌-◌, ◌*◌, ◌/◌, ◌%◌, ◌^◌, ◌<◌, ◌≡◌, refl, ◌∙◌, Bool, true, false, not, ◌||◌, ◌==◌,
  if◌then◌else◌, arith,
}

-- The initiator tells the streams opened here from those opened by the remote.
pub record StreamId : Type 0 where
  pub id : ℕ
  pub initiator : Bool

-- `StreamId::val`, with the wrap-around of `u32`.
unfoldable pub val : StreamId → ℕ
val s = if s.initiator then (s.id + 10000000) % 2 ^ 32 else s.id

pub data Tag : Type 0 where
  new_stream message close reset : Tag

-- The discriminant of the tag.
abbrev pub tag_number : Tag → ℕ
tag_number new_stream = 0
tag_number message = 2
tag_number close = 4
tag_number reset = 6

pub record Header : Type 0 where
  pub stream_id : StreamId
  pub tag : Tag

pub data Decoded : Type 0 where
  header : Header → Decoded
  unknown_tag : ℕ → Decoded

-- `id << 3` drops what is shifted out of 32 bits.
unfoldable pub encode : Header → ℕ
encode h =
    let tag = tag_number h.tag in
    let shifted = (h.stream_id.id * 8) % 2 ^ 32 in
    if tag == 0 || h.stream_id.initiator then shifted + tag else (shifted + tag) - 1

-- The tag of a header and the number of its stream. An odd tag is that of the remote's `Message`,
-- `Close` or `Reset` for a stream that was opened here.
unfoldable pub decode_parts : (tag id : ℕ) → Decoded
decode_parts tag id =
    let stream_id : StreamId = record { id = id; initiator = not (tag % 2 == 0) } in
    if tag == 0
    then header (record { stream_id = stream_id; tag = new_stream })
    else if tag == 1 || tag == 2
    then header (record { stream_id = stream_id; tag = message })
    else if tag == 3 || tag == 4
    then header (record { stream_id = stream_id; tag = close })
    else if tag == 5 || tag == 6
    then header (record { stream_id = stream_id; tag = reset })
    else unknown_tag tag

unfoldable pub decode : ℕ → Decoded
decode b = decode_parts (b % 8) (b / 8)

-- The stream as the other end names it. A stream is opened by the end that sends `NewStream`.
abbrev pub seen_by_remote : Header → Header
seen_by_remote h = record {
  stream_id = record {
    id = h.stream_id.id;
    initiator = if tag_number h.tag == 0 then false else not h.stream_id.initiator;
  };
  tag = h.tag;
}

decode-parts : (id t : ℕ) → t < 8 → decode (id * 8 + t) ≡ decode_parts t id
unfolding decode
decode-parts id t b =
    let tag : (id * 8 + t) % 8 ≡ t = omega arith in
    let number : (id * 8 + t) / 8 ≡ id = omega arith in rw (tag, number) refl

-- The number whose parts are a tag and the number of the stream.
decode_of :
    (n id t : ℕ) (d : Decoded) → n ≡ id * 8 + t → t < 8 → decode_parts t id ≡ d → decode n ≡ d
decode_of n id t d e b p = rw e (decode-parts id t b ∙ p)

decode-encode_parts :
    (t : Tag) (i : ℕ) (a : Bool)
    → i < 2 ^ 29
    → let h : Header = record { stream_id = record { id = i; initiator = a }; tag = t } in
      decode (encode h) ≡ header (seen_by_remote h)
unfolding encode decode_parts
decode-encode_parts new_stream i a b = decode_of _ i 0 _ (omega arith) (omega arith) refl
decode-encode_parts message i true b = decode_of _ i 2 _ (omega arith) (omega arith) refl
decode-encode_parts message i false b = decode_of _ i 1 _ (omega arith) (omega arith) refl
decode-encode_parts close i true b = decode_of _ i 4 _ (omega arith) (omega arith) refl
decode-encode_parts close i false b = decode_of _ i 3 _ (omega arith) (omega arith) refl
decode-encode_parts reset i true b = decode_of _ i 6 _ (omega arith) (omega arith) refl
decode-encode_parts reset i false b = decode_of _ i 5 _ (omega arith) (omega arith) refl

-- The header of a stream with a number below 2^29 decodes to the same number and tag, with the
-- initiator turned round, and with the remote as initiator for `NewStream`.
pub decode-encode :
    (h : Header) → h.stream_id.id < 2 ^ 29 → decode (encode h) ≡ header (seen_by_remote h)
decode-encode h b = decode-encode_parts h.tag h.stream_id.id h.stream_id.initiator b

encode-lt_parts :
    (t : Tag) (i : ℕ) (a : Bool)
    → encode (record { stream_id = record { id = i; initiator = a }; tag = t }) < 2 ^ 32
unfolding encode
encode-lt_parts new_stream i a = omega arith
encode-lt_parts message i true = omega arith
encode-lt_parts message i false = omega arith
encode-lt_parts close i true = omega arith
encode-lt_parts close i false = omega arith
encode-lt_parts reset i true = omega arith
encode-lt_parts reset i false = omega arith

-- For every stream number, initiator and tag the encoded header is below 2^32, so the sum after
-- the shift does not overflow.
pub encode-lt : (h : Header) → encode h < 2 ^ 32
encode-lt h = encode-lt_parts h.tag h.stream_id.id h.stream_id.initiator

-- Streams with numbers below 10000000 that have the same `val` have the same number and the same
-- initiator.
pub val_unique :
    (s t : StreamId)
    → s.id < 10000000
    → t.id < 10000000
    → val s ≡ val t
    → (s.id ≡ t.id) × (s.initiator ≡ t.initiator)
unfolding val
val_unique s t a b e = (ground arith, ground arith)
