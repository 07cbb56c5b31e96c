-- ===== src/Multistream/Message.antt =====
-- core/src/multistream/protocol.rs: protocol names, messages, and their bytes.
use libp2p_rs.Common.{
  ℕ, zero, suc, ◌-◌, Bool, true, false, not, ◌&&◌, ◌||◌, none, some, List, [], ◌∷◌, ◌++◌, ltb, leb,
  ◌==◌, if◌then◌else◌, length, get_elem?, take, drop,
}
use libp2p_rs.Multistream.Uvi.{Uvi}

abbrev pub max_protocols : ℕ
max_protocols = 1000

abbrev pub max_protocol_len : ℕ
max_protocol_len = 140

-- "/multistream/1.0.0\n", "na\n" and "ls\n"
abbrev pub msg_multistream_1_0 : List ℕ
msg_multistream_1_0 =
    47 ∷ 109 ∷ 117 ∷ 108 ∷ 116 ∷ 105 ∷ 115 ∷ 116 ∷ 114 ∷ 101 ∷ 97 ∷ 109 ∷ 47 ∷ 49 ∷ 46 ∷ 48 ∷ 46
    ∷ 48 ∷ 10 ∷ []

abbrev pub msg_protocol_na : List ℕ
msg_protocol_na = 110 ∷ 97 ∷ 10 ∷ []

abbrev pub msg_ls : List ℕ
msg_ls = 108 ∷ 115 ∷ 10 ∷ []

pub data ProtocolError : Type 0 where
  invalid_message invalid_protocol too_many_protocols invalid_varint io_error : ProtocolError

-- A protocol is its name. `Version` has the one value `V1`.
pub data Message : Type 0 where
  header list_protocols not_available : Message
  protocol : List ℕ → Message
  protocols : List (List ℕ) → Message

pub data Result {ℓ} (A : Type ℓ) : Type ℓ where
  ok : A → Result A
  err : ProtocolError → Result A

unfoldable pub starts_with_slash : List ℕ → Bool
starts_with_slash [] = false
starts_with_slash (b ∷ bs) = b == 47

-- `Protocol::try_from`
unfoldable pub try_from : List ℕ → Result (List ℕ)
try_from value =
    if not (starts_with_slash value) || ltb max_protocol_len (length value)
    then err invalid_protocol
    else ok value

unfoldable pub same_bytes : List ℕ → List ℕ → Bool
same_bytes [] [] = true
same_bytes [] (y ∷ ys) = false
same_bytes (x ∷ xs) [] = false
same_bytes (x ∷ xs) (y ∷ ys) = if x == y then same_bytes xs ys else false

-- `msg.last() == Some(&b'\n')`
unfoldable pub ends_with_newline : List ℕ → Bool
ends_with_newline [] = false
ends_with_newline (b ∷ []) = b == 10
ends_with_newline (b ∷ c ∷ bs) = ends_with_newline (c ∷ bs)

-- The name of `len` bytes at the front of `rem`, the newline at its end not counted in.
unfoldable pub decode_name : (len : ℕ) → List ℕ → Result (List ℕ)
decode_name len rem =
    if len == 0 || ltb (length rem) len
    then err invalid_message
    else elim (get_elem? rem (len - 1)) [
      | none ↦ err invalid_message
      | some b ↦ if b == 10 then try_from (take (len - 1) rem) else err invalid_message
    ]

unfoldable pub is_single : List ℕ → Bool
is_single msg =
    starts_with_slash msg && (ends_with_newline msg && leb (length msg) max_protocol_len)

module _ (v : Uvi) where
  unfoldable pub encode_names : List (List ℕ) → List ℕ
  encode_names [] = []
  encode_names (p ∷ ps) = (v.encode_usize (suc (length p)) ++ (p ++ (10 ∷ []))) ++ encode_names ps

  unfoldable pub encode : Message → List ℕ
  encode header = msg_multistream_1_0
  encode (protocol p) = p ++ (10 ∷ [])
  encode list_protocols = msg_ls
  encode (protocols ps) = v.encode_usize (length ps) ++ encode_names ps
  encode not_available = msg_protocol_na

  -- The rounds of the loop over the names.
  unfoldable pub decode_names : ℕ → List ℕ → Result (List (List ℕ))
  decode_names zero remaining = ok []
  decode_names (suc n) remaining = elim (v.decode_usize remaining) [
    | none ↦ err invalid_varint
    | some (len, rem) ↦ elim (decode_name len rem) [
      | err e ↦ err e
      | ok p ↦ elim (decode_names n (drop len rem)) [ err e ↦ err e | ok ps ↦ ok (p ∷ ps) ]
    ]
  ]

  unfoldable pub decode_protocols : List ℕ → Result Message
  decode_protocols msg = elim (v.decode_usize msg) [
    | none ↦ err invalid_varint
    | some (num_protocols, remaining) ↦
        if ltb max_protocols num_protocols
        then err too_many_protocols
        else elim (decode_names num_protocols remaining) [
          | err e ↦ err e
          | ok ps ↦ ok (protocols ps)
        ]
  ]

  unfoldable pub decode : List ℕ → Result Message
  decode msg =
      if same_bytes msg msg_multistream_1_0
      then ok header
      else if is_single msg
      then elim (try_from (take (length msg - 1) msg)) [ err e ↦ err e | ok p ↦ ok (protocol p) ]
      else if same_bytes msg msg_protocol_na
      then ok not_available
      else if same_bytes msg msg_ls
      then ok list_protocols
      else decode_protocols msg
