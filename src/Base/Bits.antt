-- ===== src/Base/Bits.antt =====
-- Shifts and exclusive or of Python's non-negative integers, at every width.
use Prim.Native.Nat.{
  ℕ, zero, suc, ◌+◌, ◌*◌, ◌/◌, ◌%◌, ◌^◌, ◌≤◌, ◌<◌, bit_xor, digits, differ, bit_xor-bitwise,
}
use mathlib.Core.Path.{◌≡◌, refl, sym, ap}
use native.Mathlib.Nat.{
  pow-suc, mul_comm, div-one, one-le-pow, le-div_iff_mul-le, lt-div-mul-add, div-div-eq-div-mul,
}
use Prim.Native.Nat.pow
use native.Mathlib.Omega.{arith}

-- x >> k
abbrev pub shr : ℕ → ℕ → ℕ
shr x k = x / 2 ^ k

abbrev xor_digits : ℕ → ℕ → ℕ → ℕ
xor_digits n a b = digits (λ b. b) differ n a b

-- The digits are the same whatever bound on their number is given.
any_bound : (a b k l : ℕ) → a ≤ l → a ≤ k → xor_digits k a b ≡ xor_digits l a b
any_bound zero b zero zero below under = refl
any_bound zero b zero (suc l) below under = refl
any_bound zero b (suc k) zero below under = refl
any_bound zero b (suc k) (suc l) below under = refl
any_bound (suc a) b zero l below under = absurd (omega (arith, under))
any_bound (suc a) b (suc k) zero below under = absurd (omega (arith, below))
any_bound (suc a) b (suc k) (suc l) below under =
    let half = any_bound (suc a / 2) (b / 2) k l (omega (arith, below)) (omega (arith, under)) in
    omega (arith, half)

zero-bit_xor : (b : ℕ) → bit_xor 0 b ≡ b
zero-bit_xor b = bit_xor-bitwise 0 b

pub bit_xor_step : (a b : ℕ) → bit_xor a b ≡ bit_xor (a / 2) (b / 2) * 2 + differ (a % 2) (b % 2)
bit_xor_step zero b = omega (zero-bit_xor b, arith, zero-bit_xor (b / 2))
bit_xor_step (suc a) b =
    let halves = bit_xor-bitwise (suc a / 2) (b / 2) in
    let bounded = any_bound (suc a / 2) (b / 2) a (suc a / 2) (omega arith) (omega arith) in
    omega (bit_xor-bitwise (suc a) b, halves, bounded, arith)

-- The digits of an exclusive or, and what they say of the digits compared.
differ_digit : (x y : ℕ) → x < 2 → y < 2 → differ x y < 2
differ_digit zero y h k = k
differ_digit (suc zero) zero h k = omega arith
differ_digit (suc zero) (suc y) h k = omega arith
differ_digit (suc (suc x)) y h k = absurd (omega arith)

differ_self : (x : ℕ) → differ x x ≡ 0
differ_self zero = refl
differ_self (suc x) = differ_self x

eq_of_differ : (x y : ℕ) → differ x y ≡ 0 → x ≡ y
eq_of_differ zero y h = sym h
eq_of_differ (suc x) zero h = h
eq_of_differ (suc x) (suc y) h = ap suc (eq_of_differ x y h)

half-bit_xor : (a b : ℕ) → bit_xor a b / 2 ≡ bit_xor (a / 2) (b / 2)
half-bit_xor a b =
    omega (arith, bit_xor_step a b, differ_digit (a % 2) (b % 2) (omega arith) (omega arith))

shr-suc : (x k : ℕ) → shr x (suc k) ≡ shr (x / 2) k
shr-suc x k = rw (div-div-eq-div-mul x 2 (2 ^ k), pow-suc 2 k, mul_comm (2 ^ k) 2) refl

-- A shift of an exclusive or compares what is left of the two numbers.
pub shr-bit_xor : (k a b : ℕ) → shr (bit_xor a b) k ≡ bit_xor (shr a k) (shr b k)
shr-bit_xor zero a b = simp (pow.zero, div-one)
shr-bit_xor (suc k) a b =
    rw (shr-suc (bit_xor a b) k, shr-suc a k, shr-suc b k, half-bit_xor a b)
      (shr-bit_xor k (a / 2) (b / 2))

bit_xor-self_below : (n a : ℕ) → a ≤ n → bit_xor a a ≡ 0
bit_xor-self_below n zero h = refl
bit_xor-self_below zero (suc a) h = absurd (omega arith)
bit_xor-self_below (suc n) (suc a) h = omega (
  arith,
  bit_xor_step (suc a) (suc a),
  differ_self (suc a % 2),
  bit_xor-self_below n (suc a / 2) (omega arith),
)

pub bit_xor_self : (a : ℕ) → bit_xor a a ≡ 0
bit_xor_self a = bit_xor-self_below a a (omega arith)

eq_of_bit_xor_below : (n a b : ℕ) → a ≤ n → bit_xor a b ≡ 0 → a ≡ b
eq_of_bit_xor_below n zero b h e = omega (arith, zero-bit_xor b)
eq_of_bit_xor_below zero (suc a) b h e = absurd (omega arith)
eq_of_bit_xor_below (suc n) (suc a) b h e =
    let digits_agree = eq_of_differ (suc a % 2) (b % 2) (omega (arith, bit_xor_step (suc a) b)) in
    let rest_agrees =
      eq_of_bit_xor_below n (suc a / 2) (b / 2) (omega arith)
        (omega (arith, bit_xor_step (suc a) b)) in
    omega arith

pub eq_of_bit_xor : (a b : ℕ) → bit_xor a b ≡ 0 → a ≡ b
eq_of_bit_xor a b = eq_of_bit_xor_below a a b (omega arith)

-- The bit above a shift: `shr x k` is twice the longer shift and that bit.
pub shr-eq-double : (x k : ℕ) → shr x k ≡ 2 * shr x (suc k) + shr x k % 2
shr-eq-double x k =
    let halves : shr x (suc k) ≡ shr x k / 2 =
      rw (div-div-eq-div-mul x (2 ^ k) 2, pow-suc 2 k) refl in
    omega arith

-- A shift keeps the order, so numbers whose shifts are in order are themselves.
pub lt_of_shr-lt : (a b k : ℕ) → shr a k < shr b k → a < b
lt_of_shr-lt a b k h =
    let positive : 0 < 2 ^ k = one-le-pow k 2 (omega arith) in
    omega (
      arith,
      (le-div_iff_mul-le {x = suc (shr a k)} {y = b} positive).0 h,
      lt-div-mul-add {a = a} positive,
    )
