-- ===== src/Kad/Key/Xor.antt =====
-- The laws of bitwise XOR, from its digits.
use libp2p_rs.Common.{
  ℕ, zero, suc, ◌+◌, ◌*◌, ◌/◌, ◌%◌, ◌^◌, ◌<◌, ◌≡◌, refl, sym, ap, ◌∙◌, arith, two_pow-suc,
}
use libp2p_rs.Kad.Key.{U256}
use native.Mathlib.Nat.{div-div-eq-div-mul}

pub div-two_pow-suc : (a i : ℕ) → a / 2 ^ suc i ≡ a / 2 / 2 ^ i
div-two_pow-suc a i = rw two_pow-suc (sym (div-div-eq-div-mul a 2 (2 ^ i)))

module _ (u : U256) where
  pub zero-xor-zero : u.xor 0 0 ≡ 0
  zero-xor-zero = omega (arith, u.xor_digit 0 0)

  pub xor-lt_fuel : (k a b : ℕ) → a < 2 ^ k → b < 2 ^ k → u.xor a b < 2 ^ k
  xor-lt_fuel zero zero zero ha hb = omega (arith, zero-xor-zero)
  xor-lt_fuel zero zero (suc b) ha hb = absurd (omega arith)
  xor-lt_fuel zero (suc a) b ha hb = absurd (omega arith)
  xor-lt_fuel (suc k) a b ha hb =
      let p = two_pow-suc k in
      omega (arith, u.xor_digit a b, xor-lt_fuel k (a / 2) (b / 2) (omega arith) (omega arith))

  xor_comm_fuel : (k a b : ℕ) → a < 2 ^ k → b < 2 ^ k → u.xor a b ≡ u.xor b a
  xor_comm_fuel zero zero zero ha hb = refl
  xor_comm_fuel zero zero (suc b) ha hb = absurd (omega arith)
  xor_comm_fuel zero (suc a) b ha hb = absurd (omega arith)
  xor_comm_fuel (suc k) a b ha hb =
      let p = two_pow-suc k in
      omega (
        arith,
        u.xor_digit a b,
        u.xor_digit b a,
        xor_comm_fuel k (a / 2) (b / 2) (omega arith) (omega arith),
      )

  xor-zero_fuel : (k a : ℕ) → a < 2 ^ k → u.xor a 0 ≡ a
  xor-zero_fuel zero zero h = zero-xor-zero
  xor-zero_fuel zero (suc a) h = absurd (omega arith)
  xor-zero_fuel (suc k) a h =
      let p = two_pow-suc k in omega (arith, u.xor_digit a 0, xor-zero_fuel k (a / 2) (omega arith))

  xor_self_fuel : (k a : ℕ) → a < 2 ^ k → u.xor a a ≡ 0
  xor_self_fuel zero zero h = zero-xor-zero
  xor_self_fuel zero (suc a) h = absurd (omega arith)
  xor_self_fuel (suc k) a h =
      let p = two_pow-suc k in omega (arith, u.xor_digit a a, xor_self_fuel k (a / 2) (omega arith))

  half_xor : (a b : ℕ) → u.xor a b / 2 ≡ u.xor (a / 2) (b / 2)
  half_xor a b = omega (arith, u.xor_digit a b)

  low_xor : (a b : ℕ) → u.xor a b % 2 ≡ (a % 2 + b % 2) % 2
  low_xor a b = omega (arith, u.xor_digit a b)

  xor_assoc_fuel :
      (k a b c : ℕ) → a < 2 ^ k → b < 2 ^ k → c < 2 ^ k → u.xor (u.xor a b) c ≡ u.xor a (u.xor b c)
  xor_assoc_fuel zero zero zero zero ha hb hc = rw zero-xor-zero
  xor_assoc_fuel zero zero zero (suc c) ha hb hc = absurd (omega arith)
  xor_assoc_fuel zero zero (suc b) c ha hb hc = absurd (omega arith)
  xor_assoc_fuel zero (suc a) b c ha hb hc = absurd (omega arith)
  xor_assoc_fuel (suc k) a b c ha hb hc =
      let p = two_pow-suc k in
      let ih = xor_assoc_fuel k (a / 2) (b / 2) (c / 2) (omega arith) (omega arith) (omega arith) in
      omega (
        arith,
        u.xor_digit (u.xor a b) c,
        u.xor_digit a (u.xor b c),
        low_xor a b,
        low_xor b c,
        ap (λ (t : ℕ). u.xor t (c / 2)) (half_xor a b),
        ap (λ (t : ℕ). u.xor (a / 2) t) (half_xor b c),
        ih,
      )

  -- Any number is below some power of two.
  lt-two_pow : (n : ℕ) → n < 2 ^ n
  lt-two_pow zero = omega arith
  lt-two_pow (suc n) = omega (arith, two_pow-suc n, lt-two_pow n)

  pub xor-zero : (a : ℕ) → u.xor a 0 ≡ a
  xor-zero a = xor-zero_fuel a a (lt-two_pow a)

  pub xor_self : (a : ℕ) → u.xor a a ≡ 0
  xor_self a = xor_self_fuel a a (lt-two_pow a)

  below_sum : (a b : ℕ) → a < 2 ^ (a + b)
  below_sum a zero = rw (two_pow_at a) (lt-two_pow a)
    where
      two_pow_at : (n : ℕ) → 2 ^ (n + 0) ≡ 2 ^ n
      two_pow_at n = ap (λ (t : ℕ). 2 ^ t) (omega arith)
  below_sum a (suc b) =
      let e : a + suc b ≡ suc (a + b) = omega arith in
      rw e (omega (arith, two_pow-suc (a + b), below_sum a b))

  pub xor_comm : (a b : ℕ) → u.xor a b ≡ u.xor b a
  xor_comm a b =
      let e : b + a ≡ a + b = omega arith in
      xor_comm_fuel (a + b) a b (below_sum a b) (rw e at (below_sum b a))

  pub xor_assoc : (a b c : ℕ) → u.xor (u.xor a b) c ≡ u.xor a (u.xor b c)
  xor_assoc a b c =
      xor_assoc_fuel (a + (b + c)) a b c (below_sum a (b + c))
        (let e : b + (a + c) ≡ a + (b + c) = omega arith in rw e at (below_sum b (a + c)))
        (let e : c + (a + b) ≡ a + (b + c) = omega arith in rw e at (below_sum c (a + b)))

  -- `a xor (a xor b)` is `b`.
  pub xor_cancel : (a b : ℕ) → u.xor a (u.xor a b) ≡ b
  xor_cancel a b =
      sym (xor_assoc a a b) ∙ ap (λ (t : ℕ). u.xor t b) (xor_self a) ∙ xor_comm 0 b ∙ xor-zero b

  -- A shift to the right distributes over XOR.
  pub xor_shift : (i a b : ℕ) → u.xor a b / 2 ^ i ≡ u.xor (a / 2 ^ i) (b / 2 ^ i)
  xor_shift zero a b = rw (one_div a, one_div b, one_div (u.xor a b))
    where
      one_div : (n : ℕ) → n / 2 ^ 0 ≡ n
      one_div n = omega arith
  xor_shift (suc i) a b =
      rw (div-two_pow-suc (u.xor a b) i, div-two_pow-suc a i, div-two_pow-suc b i, half_xor a b)
        (xor_shift i (a / 2) (b / 2))

  -- XOR with 1 changes the lowest bit.
  pub xor_one : (n : ℕ) → u.xor n 1 ≡ n / 2 * 2 + (n % 2 + 1) % 2
  xor_one n = omega (arith, u.xor_digit n 1, xor-zero (n / 2))
