-- ===== src/Utils/Status.antt =====
-- The entry `FDSize` of /proc/self/status in `MyHighestFd`.
use mathlib.Core.List.{append_assoc}
use optrace.Prelude.{
  ℕ, zero, suc, ◌+◌, ◌-◌, ◌*◌, ◌/◌, ◌%◌, ◌^◌, ◌≤◌, ◌<◌, ◌≡◌, refl, ap, sym, subst, ◌∙◌, true, false,
  some, [], ◌∷◌, ◌++◌, Text, text, All, take, length, ◌==◌, arith, Bool-cases, inl, inr, eq_of_==,
  leb,
}
use optrace.Utils.{
  digits_fuel, decimal, is_digit, digits_value, atoi, parse_line, strstr, Told, told, assert_fails,
  not_defined, fill_line, fd_size_in, fd_size_of,
}

plus_one : (n : ℕ) → suc n ≡ n + 1
plus_one n = omega arith

-- A text that does not go on with a digit.
abbrev pub NoDigit : Text → Type 0
NoDigit [] = Unit
NoDigit (c ∷ cs) = is_digit c ≡ false

digits_value-stops : (v : ℕ) (t : Text) → NoDigit t → digits_value v t ≡ v
unfolding digits_value
digits_value-stops v [] h = refl
digits_value-stops v (c ∷ cs) h = rw h refl

digits_value-digit :
    (v d : ℕ) (acc : Text)
    → d < 10
    → digits_value v ((0x30 + d) ∷ acc) ≡ digits_value (10 * v + d) acc
unfolding digits_value
digits_value-digit v d acc h = rw digit (ap (λ k. digits_value (10 * v + k) acc) (omega arith))
  where
    digit : is_digit (0x30 + d) ≡ true
    digit = ground (arith, h)

-- The digits of `n` before `acc` count as `n`.
digits_value-digits_fuel :
    (fuel n : ℕ) (acc : Text)
    → n < fuel
    → digits_value 0 (digits_fuel fuel n acc) ≡ digits_value n acc
unfolding digits_fuel
digits_value-digits_fuel zero n acc h = absurd (omega arith)
digits_value-digits_fuel (suc fuel) n acc h =
    let whole : 10 * (n / 10) + n % 10 ≡ n = omega arith in
    elim (Bool-cases (n / 10 == 0)) [
      | inl last ↦ rw last (
          digits_value-digit 0 (n % 10) acc (omega arith)
          ∙ ap (λ k. digits_value k acc) (omega (arith, eq_of_== (n / 10) 0 last)))
      | inr more ↦ rw more (
          digits_value-digits_fuel fuel (n / 10) ((0x30 + n % 10) ∷ acc) (ground (arith, h, more))
          ∙ digits_value-digit (n / 10) (n % 10) acc (omega arith)
          ∙ ap (λ k. digits_value k acc) whole)
    ]

digits_fuel-append :
    (fuel n : ℕ) (acc rest : Text)
    → digits_fuel fuel n acc ++ rest ≡ digits_fuel fuel n (acc ++ rest)
unfolding digits_fuel
digits_fuel-append zero n acc rest = refl
digits_fuel-append (suc fuel) n acc rest =
    ground (arith, digits_fuel-append fuel (n / 10) ((0x30 + n % 10) ∷ acc) rest)

digits_value-decimal : (n : ℕ) (rest : Text) → NoDigit rest → digits_value 0 (decimal n ++ rest) ≡ n
unfolding decimal
digits_value-decimal n rest h =
    ap (digits_value 0) (digits_fuel-append (n + 1) n [] rest)
    ∙ digits_value-digits_fuel (n + 1) n rest (omega arith)
    ∙ digits_value-stops n rest h

-- A text that begins with a digit.
abbrev StartsDigit : Text → Type 0
StartsDigit [] = ⊥
StartsDigit (c ∷ cs) = is_digit c ≡ true

digits_fuel-StartsDigit :
    (fuel n : ℕ) (acc : Text) → StartsDigit acc → StartsDigit (digits_fuel fuel n acc)
unfolding digits_fuel
digits_fuel-StartsDigit zero n acc h = h
digits_fuel-StartsDigit (suc fuel) n acc h =
    let digit : is_digit (0x30 + n % 10) ≡ true = ground arith in
    elim (Bool-cases (n / 10 == 0)) [
      | inl last ↦ rw last digit
      | inr more ↦ rw more (digits_fuel-StartsDigit fuel (n / 10) ((0x30 + n % 10) ∷ acc) digit)
    ]

first_digit : (n : ℕ) (acc : Text) → StartsDigit (digits_fuel (suc n) n acc)
unfolding digits_fuel
first_digit n acc =
    let digit : is_digit (0x30 + n % 10) ≡ true = ground arith in
    elim (Bool-cases (n / 10 == 0)) [
      | inl last ↦ rw last digit
      | inr more ↦ rw more (digits_fuel-StartsDigit n (n / 10) ((0x30 + n % 10) ∷ acc) digit)
    ]

decimal-StartsDigit : (n : ℕ) (rest : Text) → StartsDigit (decimal n ++ rest)
unfolding decimal
decimal-StartsDigit n rest =
    subst StartsDigit (sym (digits_fuel-append (n + 1) n [] rest))
      (subst (λ k. StartsDigit (digits_fuel k n rest)) (plus_one n) (first_digit n rest))

parse_line-atoi : (t : Text) → StartsDigit t → parse_line t ≡ atoi t
unfolding parse_line
parse_line-atoi [] h = absurd h
parse_line-atoi (c ∷ cs) h = rw h refl

parse_line-decimal :
    (blanks : Text) (n : ℕ) (rest : Text)
    → All (λ c. is_digit c ≡ false) blanks
    → NoDigit rest
    → n < 2 ^ 31
    → parse_line (blanks ++ (decimal n ++ rest)) ≡ some n
unfolding parse_line atoi
parse_line-decimal [] n rest h stop small =
    parse_line-atoi (decimal n ++ rest) (decimal-StartsDigit n rest)
    ∙ rw (atoi, digits_value-decimal n rest stop) (ground (arith, small))
parse_line-decimal (c ∷ cs) n rest h stop small =
    rw h.0 (parse_line-decimal cs n rest h.1 stop small)

strstr-append :
    (pre rest : Text)
    → All (λ c. (c == b'F') ≡ false) pre
    → strstr (pre ++ (text "FDSize:" ++ rest)) (text "FDSize:") ≡ some (text "FDSize:" ++ rest)
unfolding strstr
strstr-append [] rest h = refl
strstr-append (c ∷ cs) rest h = rw h.0 (strstr-append cs rest h.1)

take-append :
    (xs ys : Text) (n : ℕ) → length xs ≤ n → take n (xs ++ ys) ≡ xs ++ take (n - length xs) ys
take-append [] ys n h = ap (λ k. take k ys) (omega arith)
take-append (x ∷ xs) ys zero h = absurd (omega arith)
take-append (x ∷ xs) ys (suc n) h =
    ap (◌∷◌ x) (take-append xs ys n (omega arith) ∙ ap (λ k. xs ++ take k ys) (omega arith))

NoDigit-take : (n : ℕ) (t : Text) → NoDigit t → NoDigit (take n t)
NoDigit-take zero t h = tt
NoDigit-take (suc n) [] h = tt
NoDigit-take (suc n) (c ∷ cs) h = h

regroup :
    (pre blanks digits rest : Text)
    → pre ++ (text "FDSize:" ++ (blanks ++ (digits ++ rest)))
      ≡ (pre ++ (text "FDSize:" ++ (blanks ++ digits))) ++ rest
regroup pre blanks digits rest =
    ap (λ t. pre ++ (text "FDSize:" ++ t)) (sym (append_assoc blanks digits rest))
    ∙ sym (append_assoc pre (text "FDSize:" ++ (blanks ++ digits)) rest)

full : (n : ℕ) → 511 ≤ n → leb 511 n ≡ true
full n h = ground (arith, h)

fill_line-long : (t : Text) → 511 ≤ length t → fill_line t ≡ told (take 511 t)
unfolding fill_line
fill_line-long [] h = absurd (omega arith)
fill_line-long (c ∷ cs) h = rw (full (length (c ∷ cs)) h) refl

fd_size_of-long : (t : Text) → 511 ≤ length t → fd_size_of t ≡ fd_size_in (take 511 t)
unfolding fd_size_of
fd_size_of-long t h =
    ap
      (λ o. elim o as (λ _. Told ℕ) [
        | told line ↦ fd_size_in line
        | assert_fails ↦ assert_fails
        | not_defined ↦ not_defined
      ])
      (fill_line-long t h)

fd_size_in-decimal :
    (pre blanks : Text) (n : ℕ) (rest : Text)
    → All (λ c. (c == b'F') ≡ false) pre
    → All (λ c. is_digit c ≡ false) blanks
    → NoDigit rest
    → n < 2 ^ 31
    → length (pre ++ (text "FDSize:" ++ (blanks ++ decimal n))) ≤ 511
    → fd_size_in (take 511 (pre ++ (text "FDSize:" ++ (blanks ++ (decimal n ++ rest))))) ≡ told n
unfolding fd_size_in
fd_size_in-decimal pre blanks n rest no_f no_digit stop small fits =
    let entry = pre ++ (text "FDSize:" ++ (blanks ++ decimal n)) in
    let kept = take (511 - length entry) rest in
    rw
      (
        regroup pre blanks (decimal n) rest,
        take-append entry rest 511 fits,
        ← regroup pre blanks (decimal n) kept,
        fd_size_in,
        strstr-append pre (blanks ++ (decimal n ++ kept)) no_f,
        parse_line-decimal blanks n kept no_digit (NoDigit-take (511 - length entry) rest stop)
            small,
      )
      refl

fd_size_of-short : (t : Text) → 0 < length t → length t < 511 → fd_size_of t ≡ not_defined
unfolding fd_size_of fill_line
fd_size_of-short [] h k = absurd (omega arith)
fd_size_of-short (c ∷ cs) h k = ground (arith, k)

-- `MyHighestFd` reads back the number behind `FDSize:` in the status of the process, if it is an `int`, only
-- what is no digit stands between, the end of the number is in the first 511 bytes, and no `F` stands
-- before the entry; and if the status has at least 511 bytes. A status of fewer bytes, but for none,
-- makes it read to outside its line, which is undefined behaviour.
pub fd_size_of-decimal :
    (pre blanks : Text) (n : ℕ) (rest : Text)
    → All (λ c. (c == b'F') ≡ false) pre
    → All (λ c. is_digit c ≡ false) blanks
    → NoDigit rest
    → n < 2 ^ 31
    → length (pre ++ (text "FDSize:" ++ (blanks ++ decimal n))) ≤ 511
    → 511 ≤ length (pre ++ (text "FDSize:" ++ (blanks ++ (decimal n ++ rest))))
    → (short : Text) → 0 < length short
    → length short < 511
    → (fd_size_of (pre ++ (text "FDSize:" ++ (blanks ++ (decimal n ++ rest)))) ≡ told n)
      × (fd_size_of short ≡ not_defined)
fd_size_of-decimal pre blanks n rest no_f no_digit stop small fits long short some_byte few = (
  fd_size_of-long _ long ∙ fd_size_in-decimal pre blanks n rest no_f no_digit stop small fits,
  fd_size_of-short short some_byte few,
)
