-- ===== src/Common/Pow.antt =====
-- Powers of two and division by them.
use Prim.Native.Nat.{◌+◌, ℕ, zero, suc, ◌*◌, ◌^◌, ◌≤◌, ◌<◌}
use mathlib.Core.Path.{◌≡◌}
use native.Mathlib.Omega.{arith}
use mathlib.Core.Path.{sym}
use native.Mathlib.Decide.{dec_lt}
use native.Mathlib.Nat.{pow-suc, pow-zero, zero-add, suc-add, mul_assoc}

pub two_pow-suc : (n : ℕ) → 2 ^ suc n ≡ 2 * 2 ^ n
two_pow-suc n = omega (arith, pow-suc 2 n)

pub two_pow_pos : (n : ℕ) → 0 < 2 ^ n
two_pow_pos zero = omega arith
two_pow_pos (suc n) = omega (arith, two_pow-suc n, two_pow_pos n)

pub two_pow_mono : (m n : ℕ) → m ≤ n → 2 ^ m ≤ 2 ^ n
two_pow_mono zero n h = omega (arith, two_pow_pos n)
two_pow_mono (suc m) zero h = absurd (omega arith)
two_pow_mono (suc m) (suc n) h =
    omega (arith, two_pow-suc m, two_pow-suc n, two_pow_mono m n (omega arith))

pub two_pow-add : (m n : ℕ) → 2 ^ (m + n) ≡ 2 ^ m * 2 ^ n
two_pow-add zero n = rw (zero-add, pow-zero) (omega arith)
two_pow-add (suc m) n =
    rw (suc-add, two_pow-suc (m + n), two_pow-suc m, two_pow-add m n)
      (sym (mul_assoc 2 (2 ^ m) (2 ^ n)))

pub exponent-lt : (j n d : ℕ) → 2 ^ j ≤ d → d < 2 ^ n → j < n
exponent-lt j n d lo hi = elim (dec_lt j n) [
  | yes lt ↦ lt
  | no ge ↦ absurd (omega (arith, two_pow_mono n j (omega arith)))
]
