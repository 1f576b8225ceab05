-- ===== src/Sizes/Bounds.antt =====
-- The buffer of `HumanReadableSize` and the table of suffixes.
use optrace.Prelude.{
  ℕ, zero, suc, ◌+◌, ◌*◌, ◌/◌, ◌^◌, ◌≤◌, ◌<◌, ◌≡◌, refl, ap, ◌∙◌, ◌⊎◌, inl, inr, false, none, some,
  ◌++◌, Text, text, length, leb, ◌==◌, arith, Bool-cases, length-append,
}
use native.Mathlib.Nat.{pow-le-pow_right, one-le-pow, mul-le-mul_right}
use optrace.Utils.{digits_fuel, decimal}
use optrace.Sizes.{
  Libc, suffixes, print_into_buff, suffix_at, one_decimal, value_text, human_readable_size,
}

-- What the C library documents of its functions, for a number of bytes: `log2` is rounded down, and the
-- tenths of the value over `1024 ^ k` are the nearest.
pub record IsLibc (c : Libc) (bytes : ℕ) : Type 0 where
  pub log2_low : 2 ^ c.log2 bytes ≤ bytes
  pub log2_high : bytes < 2 ^ (c.log2 bytes + 1)
  pub tenths_low : (k : ℕ) → 20 * bytes ≤ 2 * (c.tenths bytes k * 1024 ^ k) + 1024 ^ k
  pub tenths_high : (k : ℕ) → 2 * (c.tenths bytes k * 1024 ^ k) ≤ 20 * bytes + 1024 ^ k

-- A suffix of the table has at most three characters.
suffix_found :
    (k : ℕ)
    → k < 5
    → (s : Text) × (suffix_at suffixes k ≡ some s)
      × (length s ≤ 3)
      × ((k == 0) ≡ false → length s ≡ 3)
unfolding suffix_at
suffix_found zero h = (_, refl, omega arith, λ e. absurd (ground arith))
suffix_found (suc zero) h = (_, refl, omega arith, λ e. refl)
suffix_found (suc (suc zero)) h = (_, refl, omega arith, λ e. refl)
suffix_found (suc (suc (suc zero))) h = (_, refl, omega arith, λ e. refl)
suffix_found (suc (suc (suc (suc zero)))) h = (_, refl, omega arith, λ e. refl)
suffix_found (suc (suc (suc (suc (suc k))))) h = absurd (omega arith)

suffix_missing : (k : ℕ) → 5 ≤ k → suffix_at suffixes k ≡ none
unfolding suffix_at
suffix_missing zero h = absurd (omega arith)
suffix_missing (suc zero) h = absurd (omega arith)
suffix_missing (suc (suc zero)) h = absurd (omega arith)
suffix_missing (suc (suc (suc zero))) h = absurd (omega arith)
suffix_missing (suc (suc (suc (suc zero)))) h = absurd (omega arith)
suffix_missing (suc (suc (suc (suc (suc k))))) h = refl

-- The powers of two between two suffixes, in the table.
powers : (k : ℕ) → k < 5 → 2 ^ (10 * k + 10) ≡ 1024 * 1024 ^ k
powers zero h = refl
powers (suc zero) h = refl
powers (suc (suc zero)) h = refl
powers (suc (suc (suc zero))) h = refl
powers (suc (suc (suc (suc zero)))) h = refl
powers (suc (suc (suc (suc (suc k))))) h = absurd (omega arith)

lt_or_le : (a b : ℕ) → (a < b) ⊎ (b ≤ a)
lt_or_le a b = elim (Bool-cases (leb b a)) [
  | inl l ↦ inr (ground arith)
  | inr n ↦ inl (ground arith)
]

two_pow_le : (a b : ℕ) → a ≤ b → 2 ^ a ≤ 2 ^ b
two_pow_le a b h = pow-le-pow_right (omega arith) h

module _ (c : Libc) (bytes : ℕ) (libc : IsLibc c bytes) where
  log2_bound : (m : ℕ) → c.log2 bytes < m → bytes < 2 ^ m
  log2_bound m h = omega (arith, libc.log2_high, two_pow_le (c.log2 bytes + 1) m (omega arith))

  -- Not between 99.95 and 100.
  abbrev pub NotNear100 : ℕ → Type 0
  NotNear100 k = (20 * bytes < 1999 * 1024 ^ k) ⊎ (100 * 1024 ^ k ≤ bytes)

  abbrev pub unit : ℕ
  unit = c.log2 bytes / 10

  below_next : unit < 5 → bytes < 1024 * 1024 ^ unit
  below_next h = omega (arith, log2_bound (10 * unit + 10) (omega arith), powers unit h)

  not_zero : (bytes == 0) ≡ false
  not_zero = ground (arith, libc.log2_low, one-le-pow (c.log2 bytes) 2 (omega arith))

  in_units :
      (s : Text)
      → (unit == 0) ≡ false
      → suffix_at suffixes unit ≡ some s
      → human_readable_size c bytes ≡ print_into_buff (value_text c bytes unit ++ s)
  unfolding human_readable_size
  in_units s large found = rw (not_zero, large, found) refl

  many_tenths :
      (K t : ℕ)
      → 1999 * K < 20 * bytes
      → bytes < 100 * K
      → 20 * bytes ≤ 2 * (t * K) + K
      → 2 * (t * K) ≤ 20 * bytes + K
      → t ≡ 1000
  many_tenths K t above below low high = elim (lt_or_le t 1000) [
    | inl small ↦ absurd (omega (arith, mul-le-mul_right {m = t} {n = 999} K (omega arith)))
    | inr big ↦ elim (lt_or_le t 1001) [
      | inl s ↦ omega arith
      | inr bigger ↦ absurd (omega (arith, mul-le-mul_right K bigger))
    ]
  ]

  overflowing : (s : Text) → length s ≡ 3 → print_into_buff (text "100.0" ++ s) ≡ none
  unfolding print_into_buff
  overflowing s three = ground (arith, length-append (text "100.0") s)

  in_a_unit : 1024 ≤ bytes → (unit == 0) ≡ false
  in_a_unit h = elim (lt_or_le (c.log2 bytes) 10) [
    | inl small ↦ absurd (omega (arith, log2_bound 10 small))
    | inr big ↦ ground (arith, big)
  ]

  past_table : 5 ≤ unit → human_readable_size c bytes ≡ none
  unfolding human_readable_size
  past_table past = rw (not_zero, large, suffix_missing unit past) refl
    where
      large : (unit == 0) ≡ false
      large = ground (arith, past)

  hundred :
      (1999 * 1024 ^ unit < 20 * bytes) × (bytes < 100 * 1024 ^ unit)
      → value_text c bytes unit ≡ text "100.0"
  unfolding value_text one_decimal decimal digits_fuel
  hundred (above, below) =
      rw
        (
          small,
          many_tenths (1024 ^ unit) (c.tenths bytes unit) above below (libc.tenths_low unit)
              (libc.tenths_high unit),
        )
        refl
    where
      small : leb (100 * 1024 ^ unit) bytes ≡ false
      small = ground (arith, below)

  -- Between 99.95 and 100 of its unit, from KiB on, the text of a size does not fit; nor is there a suffix
  -- from `2 ^ 50` on.
  pub human_readable_size-overflows :
      1024 ≤ bytes
      → (2 ^ 50 ≤ bytes) ⊎ ((1999 * 1024 ^ unit < 20 * bytes) × (bytes < 100 * 1024 ^ unit))
      → human_readable_size c bytes ≡ none
  human_readable_size-overflows h cases = elim (lt_or_le unit 5) [
    | inr past ↦ past_table past
    | inl inside ↦ elim cases [
      | inl big ↦ absurd (
          omega (
            arith,
            inside,
            big,
            below_next inside,
            powers unit inside,
            two_pow_le (10 * unit + 10) 50 (omega arith),
          ))
      | inr near ↦
          let (s, found, few, three) = suffix_found unit inside in
          in_units s (in_a_unit h) found
          ∙ ap (λ v. print_into_buff (v ++ s)) (hundred near)
          ∙ overflowing s (three (in_a_unit h))
    ]
  ]
