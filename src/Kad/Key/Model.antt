-- ===== src/Kad/Key/Model.antt =====
-- `U256` by the native numbers: the assumptions on the crate can be met.
use Prim.Native.Nat.{bit_xor, differ, digits, bit_xor-bitwise}
use libp2p_rs.Common.{
  ℕ, zero, suc, ◌+◌, ◌-◌, ◌*◌, ◌/◌, ◌%◌, ◌^◌, ◌≤◌, ◌<◌, ◌≡◌, refl, ◌==◌, ==_iff, arith, two_pow-suc,
}
use libp2p_rs.Kad.Key.{U256}

fuel_free :
    (n m a b : ℕ) → a ≤ n → a ≤ m → digits (λ y. y) differ n a b ≡ digits (λ y. y) differ m a b
fuel_free zero zero a b p q = refl
fuel_free zero (suc m) zero b p q = refl
fuel_free zero (suc m) (suc a) b p q = absurd (omega arith)
fuel_free (suc n) zero zero b p q = refl
fuel_free (suc n) zero (suc a) b p q = absurd (omega arith)
fuel_free (suc n) (suc m) zero b p q = refl
fuel_free (suc n) (suc m) (suc a) b p q =
    rw (fuel_free n m (suc a / 2) (b / 2) (omega arith) (omega arith))

differ_bits : (x y : ℕ) → x < 2 → y < 2 → differ x y ≡ (x + y) % 2
differ_bits zero y hx hy = omega arith
differ_bits (suc zero) zero hx hy = refl
differ_bits (suc zero) (suc zero) hx hy = refl
differ_bits (suc zero) (suc (suc y)) hx hy = absurd (omega arith)
differ_bits (suc (suc x)) y hx hy = absurd (omega arith)

pub xor_digit_lem : (a b : ℕ) → bit_xor a b ≡ bit_xor (a / 2) (b / 2) * 2 + (a % 2 + b % 2) % 2
xor_digit_lem zero b = simp bit_xor-bitwise (omega arith)
xor_digit_lem (suc a) b = simp bit_xor-bitwise (
    omega (
      arith,
      fuel_free a (suc a / 2) (suc a / 2) (b / 2) (omega arith) (omega arith),
      differ_bits (suc a % 2) (b % 2) (omega arith) (omega arith),
    ))

-- The number of binary digits, 256 at most.
unfoldable pub bits : ℕ → ℕ → ℕ
bits zero n = 0
bits (suc f) zero = 0
bits (suc f) (suc n) = suc (bits f (suc n / 2))

bits-le : (f n : ℕ) → bits f n ≤ f
unfolding bits
bits-le zero n = omega arith
bits-le (suc f) zero = omega arith
bits-le (suc f) (suc n) = omega (arith, bits-le f (suc n / 2))

bits-above : (f n : ℕ) → n < 2 ^ f → n < 2 ^ bits f n
unfolding bits
bits-above zero n h = h
bits-above (suc f) zero h = omega arith
bits-above (suc f) (suc n) h =
    let p = two_pow-suc f in
    omega (arith, two_pow-suc (bits f (suc n / 2)), bits-above f (suc n / 2) (omega arith))

bits-below : (f n b : ℕ) → bits f n ≡ suc b → 2 ^ b ≤ n
unfolding bits
bits-below zero n b h = absurd (omega arith)
bits-below (suc f) zero b h = absurd (omega arith)
bits-below (suc f) (suc n) zero h = omega arith
bits-below (suc f) (suc n) (suc b) h =
    omega (arith, two_pow-suc b, bits-below f (suc n / 2) b (omega arith))

unfoldable pub leading_zeros_of : ℕ → ℕ
leading_zeros_of d = 256 - bits 256 d

pub leading_zeros_of-le : (d : ℕ) → leading_zeros_of d ≤ 256
unfolding leading_zeros_of
leading_zeros_of-le d = omega arith

pub leading_zeros_of-above : (d : ℕ) → d < 2 ^ 256 → d < 2 ^ (256 - leading_zeros_of d)
unfolding leading_zeros_of
leading_zeros_of-above d h =
    let e : 256 - (256 - bits 256 d) ≡ bits 256 d = omega (arith, bits-le 256 d) in
    rw e (bits-above 256 d h)

pub leading_zeros_of-below : (d : ℕ) → leading_zeros_of d < 256 → 2 ^ (255 - leading_zeros_of d) ≤ d
unfolding leading_zeros_of
leading_zeros_of-below d h =
    bits-below 256 d (255 - (256 - bits 256 d)) (omega (arith, bits-le 256 d))

abbrev pub native_u256 : U256
native_u256 = record {
  xor = bit_xor;
  leading_zeros = leading_zeros_of;
  bit = λ d i. d / 2 ^ i % 2 == 1;
  xor_digit = xor_digit_lem;
  leading_zeros-le = leading_zeros_of-le;
  leading_zeros-above = leading_zeros_of-above;
  leading_zeros-below = leading_zeros_of-below;
  bit_iff = λ d i. ==_iff (d / 2 ^ i % 2) 1;
}
