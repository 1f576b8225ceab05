-- ===== src/Prelude/Bits.antt =====
-- Single bits of the native `&` and `|`, by the recursion on binary digits that they stand for.
use Prim.Native.Nat.{ℕ, zero, suc, ◌+◌, ◌*◌, ◌/◌, ◌%◌, ◌^◌, ◌≤◌, min, max, digits, bitwise}
use Prim.Native.Nat.{bit_and, bit_or, bit_and-bitwise, bit_or-bitwise}
use mathlib.Core.Path.{◌≡◌, refl, ap, ◌∙◌}
use native.Mathlib.Nat.{pow-suc}
use native.Mathlib.Omega.{arith}

-- Fuel beyond the number changes nothing, and so the lowest digit splits off.
module _ (rest : ℕ → ℕ) (op : ℕ → ℕ → ℕ) where
  digits-spare :
      (total fuel x y : ℕ)
      → x ≤ fuel
      → fuel ≤ total
      → digits rest op total x y ≡ digits rest op fuel x y
  digits-spare zero zero x y h k = refl
  digits-spare zero (suc fuel) x y h k = absurd (omega arith)
  digits-spare (suc total) zero zero y h k = refl
  digits-spare (suc total) zero (suc x) y h k = absurd (omega arith)
  digits-spare (suc total) (suc fuel) zero y h k = refl
  digits-spare (suc total) (suc fuel) (suc x) y h k =
      ap (λ high. high * 2 + op (suc x % 2) (y % 2))
        (digits-spare total fuel (suc x / 2) (y / 2) (omega arith) (omega arith))

  lowest_digit :
      (x y : ℕ)
      → bitwise rest op (suc x) y ≡ bitwise rest op (suc x / 2) (y / 2) * 2 + op (suc x % 2) (y % 2)
  lowest_digit x y =
      ap (λ high. high * 2 + op (suc x % 2) (y % 2))
        (digits-spare x (suc x / 2) (suc x / 2) (y / 2) (omega arith) (omega arith))

bit_or_step : (x y : ℕ) → bit_or x y ≡ bit_or (x / 2) (y / 2) * 2 + max (x % 2) (y % 2)
bit_or_step x y = rw (bit_or-bitwise x y, bit_or-bitwise (x / 2) (y / 2)) (split x)
  where
    split :
        (x : ℕ)
        → bitwise (λ m. m) max x y ≡ bitwise (λ m. m) max (x / 2) (y / 2) * 2 + max (x % 2) (y % 2)
    split zero = omega arith
    split (suc x) = lowest_digit (λ m. m) max x y

bit_and_step : (x y : ℕ) → bit_and x y ≡ bit_and (x / 2) (y / 2) * 2 + min (x % 2) (y % 2)
bit_and_step x y = rw (bit_and-bitwise x y, bit_and-bitwise (x / 2) (y / 2)) (split x)
  where
    split :
        (x : ℕ)
        → bitwise (λ m. 0) min x y ≡ bitwise (λ m. 0) min (x / 2) (y / 2) * 2 + min (x % 2) (y % 2)
    split zero = omega arith
    split (suc x) = lowest_digit (λ m. 0) min x y

-- The digit of weight `2 ^ k`.
abbrev pub bit : ℕ → ℕ → ℕ
bit zero n = n % 2
bit (suc k) n = bit k (n / 2)

pub bit-lt_two : (k n : ℕ) → bit k n ≤ 1
bit-lt_two zero n = omega arith
bit-lt_two (suc k) n = bit-lt_two k (n / 2)

pub bit-bit_or : (k a b : ℕ) → bit k (bit_or a b) ≡ max (bit k a) (bit k b)
bit-bit_or zero a b = omega (arith, bit_or_step a b)
bit-bit_or (suc k) a b =
    let half : bit_or a b / 2 ≡ bit_or (a / 2) (b / 2) = omega (arith, bit_or_step a b) in
    rw half (bit-bit_or k (a / 2) (b / 2))

pub bit-bit_and : (k a b : ℕ) → bit k (bit_and a b) ≡ min (bit k a) (bit k b)
bit-bit_and zero a b = omega (arith, bit_and_step a b)
bit-bit_and (suc k) a b =
    let half : bit_and a b / 2 ≡ bit_and (a / 2) (b / 2) = omega (arith, bit_and_step a b) in
    rw half (bit-bit_and k (a / 2) (b / 2))

empty_mask : (fuel x : ℕ) → digits (λ m. 0) min fuel x 0 ≡ 0
empty_mask zero x = refl
empty_mask (suc fuel) zero = refl
empty_mask (suc fuel) (suc x) = omega (arith, empty_mask fuel (suc x / 2))

pub bit_and-zero : (x : ℕ) → bit_and x 0 ≡ 0
bit_and-zero x = bit_and-bitwise x 0 ∙ empty_mask x x

pow_half : (k : ℕ) → (2 ^ suc k / 2 ≡ 2 ^ k) × (2 ^ suc k % 2 ≡ 0)
pow_half k = (omega (arith, pow-suc 2 k), omega (arith, pow-suc 2 k))

-- A mask of one bit keeps that bit.
pub bit_and-two_pow : (k x : ℕ) → bit_and x (2 ^ k) ≡ bit k x * 2 ^ k
bit_and-two_pow zero x = omega (arith, bit_and_step x 1, bit_and-zero (x / 2))
bit_and-two_pow (suc k) x =
    let (half, even) = pow_half k in
    let high : bit_and (x / 2) (2 ^ suc k / 2) ≡ bit k (x / 2) * 2 ^ k =
      ap (bit_and (x / 2)) half ∙ bit_and-two_pow k (x / 2) in
    let doubled = ap (λ (n : ℕ). bit k (x / 2) * n) (pow-suc 2 k) in
    omega (arith, bit_and_step x (2 ^ suc k), high, doubled, even)
