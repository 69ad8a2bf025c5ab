-- ===== src/Base/Bits.antt =====
-- The bits of a machine word: one binary digit of a number, and how `|`, `&`, the shifts and the
-- cut to a width act on it.
use Prim.Native.Nat.{
  ℕ, zero, suc, ◌+◌, ◌-◌, ◌*◌, ◌/◌, ◌%◌, ◌^◌, ◌≤◌, ◌<◌, min, max, digits, bitwise, bit_and, bit_or,
  bit_and-bitwise, bit_or-bitwise,
}
use mathlib.Core.Path.{◌≡◌, refl, sym, ap, ◌∙◌}
use mathlib.Core.Logic.{◌⊎◌, inl, inr}
use native.Mathlib.Nat.{pow-suc, div-div-eq-div-mul, div-add-mod}
use native.Mathlib.Omega.{arith}
use capsi.Base.Tests.{◌==◌, if◌then◌else◌}

-- Bit `b` of `x`, as 0 or 1.
abbrev pub testbit : ℕ → ℕ → ℕ
testbit x zero = x % 2
testbit x (suc b) = testbit (x / 2) b

-- One more unit of fuel changes nothing once the fuel covers the first operand.
more_fuel :
    (on_zero : ℕ → ℕ) (on_digits : ℕ → ℕ → ℕ) (fuel x y : ℕ)
    → x ≤ fuel
    → digits on_zero on_digits (suc fuel) x y ≡ digits on_zero on_digits fuel x y
more_fuel on_zero on_digits zero (suc x) y h = absurd (omega arith)
more_fuel on_zero on_digits zero zero y h = refl
more_fuel on_zero on_digits (suc fuel) zero y h = refl
more_fuel on_zero on_digits (suc fuel) (suc x) y h =
    let deeper = more_fuel on_zero on_digits fuel (suc x / 2) (y / 2) (omega arith) in rw deeper

spare_fuel :
    (on_zero : ℕ → ℕ) (on_digits : ℕ → ℕ → ℕ) (spare x y : ℕ)
    → digits on_zero on_digits (spare + x) x y ≡ digits on_zero on_digits x x y
spare_fuel on_zero on_digits zero x y = let none_left : 0 + x ≡ x = omega arith in rw none_left
spare_fuel on_zero on_digits (suc spare) x y =
    let one_more : suc spare + x ≡ suc (spare + x) = omega arith in
    rw one_more (
      more_fuel on_zero on_digits (spare + x) x y (omega arith)
      ∙ spare_fuel on_zero on_digits spare x y)

-- The recursion on digits that `|` and `&` stand for, without its fuel.
split_digit :
    (on_zero : ℕ → ℕ) (on_digits : ℕ → ℕ → ℕ) (x y : ℕ)
    → bitwise on_zero on_digits (suc x) y
      ≡ bitwise on_zero on_digits (suc x / 2) (y / 2) * 2 + on_digits (suc x % 2) (y % 2)
split_digit on_zero on_digits x y =
    let enough : x - suc x / 2 + suc x / 2 ≡ x = omega arith in
    let halved = spare_fuel on_zero on_digits (x - suc x / 2) (suc x / 2) (y / 2) in
    ap (λ (t : ℕ). t * 2 + on_digits (suc x % 2) (y % 2)) (rw enough at halved)

bit_or_split : (x y : ℕ) → bit_or x y ≡ bit_or (x / 2) (y / 2) * 2 + max (x % 2) (y % 2)
bit_or_split (suc x) y = simp bit_or-bitwise (split_digit (λ t. t) max x y)
bit_or_split zero y = simp bit_or-bitwise (omega arith)

bit_and_split : (x y : ℕ) → bit_and x y ≡ bit_and (x / 2) (y / 2) * 2 + min (x % 2) (y % 2)
bit_and_split (suc x) y = simp bit_and-bitwise (split_digit (λ _. 0) min x y)
bit_and_split zero y = simp bit_and-bitwise (omega arith)

pub testbit-le_one : (x b : ℕ) → testbit x b ≤ 1
testbit-le_one x zero = omega arith
testbit-le_one x (suc b) = testbit-le_one (x / 2) b

pub testbit-zero : (b : ℕ) → testbit 0 b ≡ 0
testbit-zero zero = refl
testbit-zero (suc b) = testbit-zero b

pub testbit-bit_or : (x y b : ℕ) → testbit (bit_or x y) b ≡ max (testbit x b) (testbit y b)
testbit-bit_or x y zero = omega (arith, bit_or_split x y)
testbit-bit_or x y (suc b) =
    let half : bit_or x y / 2 ≡ bit_or (x / 2) (y / 2) = omega (arith, bit_or_split x y) in
    rw half (testbit-bit_or (x / 2) (y / 2) b)

pub bit_or-lt : (w x y : ℕ) → x < 2 ^ w → y < 2 ^ w → bit_or x y < 2 ^ w
bit_or-lt zero x y hx hy =
    let x_zero : x ≡ 0 = omega arith in
    let y_zero : y ≡ 0 = omega arith in rw (x_zero, y_zero) (omega arith)
bit_or-lt (suc w) x y hx hy = omega (
  arith,
  pow-suc 2 w,
  bit_or_split x y,
  bit_or-lt w (x / 2) (y / 2) (omega (arith, pow-suc 2 w)) (omega (arith, pow-suc 2 w)),
)

-- An empty mask, for every operand up to a bound.
bit_and-zero_up_to : (bound x : ℕ) → x ≤ bound → bit_and x 0 ≡ 0
bit_and-zero_up_to zero (suc x) h = absurd (omega arith)
bit_and-zero_up_to bound zero h = refl
bit_and-zero_up_to (suc bound) (suc x) h =
    let halved = bit_and-zero_up_to bound (suc x / 2) (omega arith) in
    omega (arith, bit_and_split (suc x) 0)

-- A mask of one bit reads that bit.
pub bit_and-pow : (x b : ℕ) → bit_and x (2 ^ b) ≡ testbit x b * 2 ^ b
bit_and-pow x zero =
    omega (arith, bit_and_split x 1, bit_and-zero_up_to (x / 2) (x / 2) (omega arith))
bit_and-pow x (suc b) =
    let half : 2 ^ suc b / 2 ≡ 2 ^ b = omega (arith, pow-suc 2 b) in
    let ih : bit_and (x / 2) (2 ^ suc b / 2) ≡ testbit (x / 2) b * 2 ^ b =
      rw half (bit_and-pow (x / 2) b) in
    let even : 2 ^ suc b % 2 ≡ 0 = omega (arith, pow-suc 2 b) in
    omega (
      arith,
      bit_and_split x (2 ^ suc b),
      ih,
      even,
      ap (λ (t : ℕ). testbit (x / 2) b * t) (pow-suc 2 b),
    )

pub testbit-pow : (n b : ℕ) → testbit (2 ^ n) b ≡ (if b == n then 1 else 0)
testbit-pow zero zero = refl
testbit-pow zero (suc b) = rw (testbit-zero b) (ground arith)
testbit-pow (suc n) zero = ground (arith, pow-suc 2 n)
testbit-pow (suc n) (suc b) =
    let half : 2 ^ suc n / 2 ≡ 2 ^ n = omega (arith, pow-suc 2 n) in
    rw half (ground (arith, testbit-pow n b))

div_pow_suc : (k x : ℕ) → x / 2 ^ suc k ≡ x / 2 / 2 ^ k
div_pow_suc k x =
    let double : 2 ^ suc k ≡ 2 * 2 ^ k = omega (arith, pow-suc 2 k) in
    ap (λ (t : ℕ). x / t) double ∙ sym (div-div-eq-div-mul x 2 (2 ^ k))

-- Shifting to the right.
pub testbit-div : (k x b : ℕ) → testbit (x / 2 ^ k) b ≡ testbit x (k + b)
testbit-div zero x b =
    let same : x / 2 ^ 0 ≡ x = omega arith in let sum : 0 + b ≡ b = omega arith in rw (same, sum)
testbit-div (suc k) x b =
    let sum : suc k + b ≡ suc (k + b) = omega arith in
    rw (div_pow_suc k x, sum) (testbit-div k (x / 2) b)

pub testbit-mul_low : (s x b : ℕ) → b < s → testbit (x * 2 ^ s) b ≡ 0
testbit-mul_low zero x b h = absurd (omega arith)
testbit-mul_low (suc s) x zero h = omega (arith, ap (λ (t : ℕ). x * t) (pow-suc 2 s))
testbit-mul_low (suc s) x (suc b) h =
    let half : x * 2 ^ suc s / 2 ≡ x * 2 ^ s = omega (arith, ap (λ (t : ℕ). x * t) (pow-suc 2 s)) in
    rw half (testbit-mul_low s x b (omega arith))

pub testbit-mul : (s x b : ℕ) → testbit (x * 2 ^ s) (s + b) ≡ testbit x b
testbit-mul zero x b =
    let same : x * 2 ^ 0 ≡ x = omega arith in let sum : 0 + b ≡ b = omega arith in rw (same, sum)
testbit-mul (suc s) x b =
    let half : x * 2 ^ suc s / 2 ≡ x * 2 ^ s = omega (arith, ap (λ (t : ℕ). x * t) (pow-suc 2 s)) in
    let sum : suc s + b ≡ suc (s + b) = omega arith in
    let ih : testbit (x * 2 ^ suc s / 2) (s + b) ≡ testbit x b = rw half (testbit-mul s x b) in
    rw sum ih

-- A number without its low `w + 1` bits is twice its half without the low `w` bits.
high_part : (w x : ℕ) → 2 ^ suc w * (x / 2 ^ suc w) ≡ 2 * (2 ^ w * (x / 2 / 2 ^ w))
high_part w x =
    rw (div_pow_suc w x) (omega (arith, ap (λ (t : ℕ). t * (x / 2 / 2 ^ w)) (pow-suc 2 w)))

mod_pow_half : (w x : ℕ) → x % 2 ^ suc w / 2 ≡ x / 2 % 2 ^ w
mod_pow_half w x =
    omega (arith, high_part w x, div-add-mod x (2 ^ suc w), div-add-mod (x / 2) (2 ^ w))

-- The cut to `w` bits.
pub testbit-mod : (w x b : ℕ) → b < w → testbit (x % 2 ^ w) b ≡ testbit x b
testbit-mod zero x b h = absurd (omega arith)
testbit-mod (suc w) x zero h = omega (arith, high_part w x, div-add-mod x (2 ^ suc w))
testbit-mod (suc w) x (suc b) h = rw (mod_pow_half w x) (testbit-mod w (x / 2) b (omega arith))

pub testbit_of_lt : (w x b : ℕ) → x < 2 ^ w → w ≤ b → testbit x b ≡ 0
testbit_of_lt zero x b h k = let x_zero : x ≡ 0 = omega arith in rw x_zero (testbit-zero b)
testbit_of_lt (suc w) x zero h k = absurd (omega arith)
testbit_of_lt (suc w) x (suc b) h k =
    testbit_of_lt w (x / 2) b (omega (arith, pow-suc 2 w)) (omega arith)

digit-cases : (d : ℕ) → d < 2 → (d ≡ 0) ⊎ (d ≡ 1)
digit-cases zero h = inl refl
digit-cases (suc zero) h = inr refl
digit-cases (suc (suc d)) h = absurd (omega arith)

pub testbit-cases : (x b : ℕ) → (testbit x b ≡ 0) ⊎ (testbit x b ≡ 1)
testbit-cases x zero = digit-cases (x % 2) (omega arith)
testbit-cases x (suc b) = testbit-cases (x / 2) b
