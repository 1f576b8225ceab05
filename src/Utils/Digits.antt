-- ===== src/Utils/Digits.antt =====
-- The length of a number as it is printed.
use optrace.Prelude.{ℕ, zero, suc, ◌+◌, ◌/◌, ◌%◌, ◌^◌, ◌≤◌, ◌<◌, [], ◌∷◌, Text, length, arith}
use native.Mathlib.Nat.{pow-suc}
use optrace.Utils.{digits_fuel, decimal}

-- A number below `10 ^ d` has at most `d` digits.
length-digits_fuel :
    (fuel n d : ℕ) (acc : Text)
    → n < 10 ^ suc d
    → length (digits_fuel fuel n acc) ≤ suc d + length acc
unfolding digits_fuel
length-digits_fuel zero n d acc h = omega arith
length-digits_fuel (suc fuel) n zero acc h = ground arith
length-digits_fuel (suc fuel) n (suc d) acc h = ground (
  arith,
  length-digits_fuel fuel (n / 10) d ((0x30 + n % 10) ∷ acc) (omega (arith, h, pow-suc 10 (suc d))),
)

pub length-decimal : (n d : ℕ) → n < 10 ^ suc d → length (decimal n) ≤ suc d
unfolding decimal
length-decimal n d h = omega (arith, length-digits_fuel (n + 1) n d [] h)
