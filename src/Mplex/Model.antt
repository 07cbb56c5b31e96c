-- ===== src/Mplex/Model.antt =====
-- A concrete `unsigned_varint`, which keeps the laws asked of it.
use libp2p_rs.Common.{
  ℕ, zero, suc, ◌+◌, ◌-◌, ◌*◌, ◌/◌, ◌%◌, ◌^◌, ◌≤◌, ◌<◌, ◌≡◌, refl, ap, false, inl, inr, Option,
  none, some, List, [], ◌∷◌, ◌++◌, ltb, if◌then◌else◌, length, arith, Bool-cases, ltb→lt,
}
use native.Mathlib.Nat.{pow-suc}
use libp2p_rs.Mplex.Varint.{Varint, IsTerminated}

unfoldable pub groups : ℕ → ℕ → List ℕ
groups zero n = n ∷ []
groups (suc k) n =
    let rest = groups k (n / 128) in if ltb n 128 then n ∷ [] else (n % 128 + 128) ∷ rest

unfoldable pub number : List ℕ → Option (ℕ × List ℕ)
number [] = none
number (b ∷ bs) =
    let rest = number bs in
    if ltb b 128
    then some (b, bs)
    else elim rest [ none ↦ none | some (n, after) ↦ some ((b - 128) + 128 * n, after) ]

cons-IsTerminated : (b : ℕ) (bs : List ℕ) → 128 ≤ b → IsTerminated bs → IsTerminated (b ∷ bs)
unfolding IsTerminated
cons-IsTerminated b [] h t = absurd (omega (arith, t))
cons-IsTerminated b (c ∷ cs) h t = (h, t)

smaller : (k n : ℕ) → n < 128 ^ suc (suc k) → n / 128 < 128 ^ suc k
smaller k n h = omega (arith, pow-suc 128 (suc k))

pub groups-IsTerminated : (k n : ℕ) → n < 128 ^ suc k → IsTerminated (groups k n)
unfolding groups IsTerminated
groups-IsTerminated zero n h = h
groups-IsTerminated (suc k) n h = elim (Bool-cases (ltb n 128)) [
  | inl t ↦ rw t (ltb→lt n 128 t)
  | inr f ↦ rw f (
      cons-IsTerminated (n % 128 + 128) (groups k (n / 128)) (omega arith)
        (groups-IsTerminated k (n / 128) (smaller k n h)))
]

pub length-groups-le : (k n : ℕ) → length (groups k n) ≤ suc k
unfolding groups
length-groups-le zero n = omega arith
length-groups-le (suc k) n = ground (arith, length-groups-le k (n / 128))

pub number-groups :
    (k n : ℕ) (rest : List ℕ) → n < 128 ^ suc k → number (groups k n ++ rest) ≡ some (n, rest)
unfolding groups number
number-groups zero n rest h = ground (arith, h)
number-groups (suc k) n rest h = elim (Bool-cases (ltb n 128)) [
  | inl t ↦ rw (t, groups, number, t) refl
  | inr f ↦
      rw (f, high n, number-groups k (n / 128) rest (smaller k n h), groups, number)
        (ap (λ m. some (m, rest)) (parts n))
]
  where
    high : (m : ℕ) → ltb (m % 128 + 128) 128 ≡ false
    high m = ground arith

    parts : (m : ℕ) → (m % 128 + 128 - 128) + 128 * (m / 128) ≡ m
    parts m = omega arith

pub native_varint : Varint
native_varint = record {
  encode_u32 = groups 4;
  decode_u32 = number;
  encode-IsTerminated = λ n h. groups-IsTerminated 4 n (omega (arith, h));
  length-encode-le = λ n h. length-groups-le 4 n;
  decode-encode = λ n rest h. number-groups 4 n rest (omega (arith, h));
}
