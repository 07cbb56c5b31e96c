-- ===== src/Multistream/Model.antt =====
-- A concrete `unsigned_varint` of 64 and of 16 bits, which keeps the laws asked of it.
use libp2p_rs.Common.{
  ℕ, ◌+◌, ◌/◌, ◌%◌, ◌≡◌, refl, ap, subst, Bool, some, List, [], ◌∷◌, ◌++◌, ltb, lt→ltb, le→ltb,
  arith,
}
use libp2p_rs.Mplex.Varint.{IsTerminated}
use libp2p_rs.Mplex.Model.{groups, number, number-groups, groups-IsTerminated, length-groups-le}
use libp2p_rs.Multistream.LengthDelimited.{Uvi16, IsEncoded}
use libp2p_rs.Multistream.Uvi.{Uvi}

pub native_uvi : Uvi
unfolding groups
native_uvi = record {
  encode_usize = groups 9;
  decode_usize = number;
  decode-encode = λ n rest h. number-groups 9 n rest (omega (arith, h));
  encode-small = λ n h. rw (lt→ltb n 128 h) refl;
  encode-large =
      λ n h. (n % 128 + 128, (groups 8 (n / 128), (rw (le→ltb n 128 h) refl, omega arith)));
}

append_nil : (xs : List ℕ) → xs ++ [] ≡ xs
append_nil [] = refl
append_nil (x ∷ xs) = ap (◌∷◌ x) (append_nil xs)

last_byte : ℕ → Bool
last_byte b = ltb b 128

IsTerminated-IsEncoded : (bs : List ℕ) → IsTerminated bs → IsEncoded last_byte bs
unfolding IsTerminated IsEncoded last_byte
IsTerminated-IsEncoded [] t = t
IsTerminated-IsEncoded (b ∷ []) t = lt→ltb b 128 t
IsTerminated-IsEncoded (b ∷ c ∷ bs) t = (le→ltb b 128 t.0, IsTerminated-IsEncoded (c ∷ bs) t.1)

pub native_uvi16 : Uvi16
native_uvi16 = record {
  encode_u16 = groups 2;
  decode_u16 = number;
  is_last = last_byte;
  encode-IsEncoded =
      λ n h. IsTerminated-IsEncoded (groups 2 n) (groups-IsTerminated 2 n (omega (arith, h)));
  length-encode-le = λ n h. length-groups-le 2 n;
  decode-encode = λ n h.
      subst (λ bs. number bs ≡ some (n, [])) (append_nil (groups 2 n))
        (number-groups 2 n [] (omega (arith, h)));
}
