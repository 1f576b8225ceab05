-- ===== src/Utils/Strings.antt =====
-- Names cut at the last slash, and blanks taken off.
use optrace.Prelude.{
  ℕ, zero, suc, ◌+◌, ◌≡◌, ◌≢◌, refl, ap, sym, ◌∙◌, true, none, some, [], ◌∷◌, ◌++◌, Text, take,
  drop, ◌==◌, if◌then◌else◌, arith, Bool-cases, Option-cases, inl, inr, eq_of_==,
}
use optrace.Utils.{
  rfind_slash, get_dir_name, get_base_name, strip_end, strip_start, strip_string, is_ws,
}

-- The last slash stands between the two parts, and there is none behind it.
record IsCut (name : Text) (i : ℕ) : Type 0 where
  whole : take i name ++ 0x2f ∷ drop (suc i) name ≡ name
  last : rfind_slash (drop (suc i) name) ≡ none

IsCut-rfind_slash : (name : Text) (i : ℕ) → rfind_slash name ≡ some i → IsCut name i
unfolding rfind_slash
IsCut-rfind_slash [] i e = absurd (ground arith)
IsCut-rfind_slash (c ∷ cs) zero e = elim (Option-cases (rfind_slash cs)) [
  | inr (k, later) ↦ absurd (ground arith)
  | inl none_later ↦ elim (Bool-cases (c == 0x2f)) [
    | inr other ↦ absurd (ground arith)
    | inl slash ↦ record {
      whole = ap (λ d. d ∷ cs) (sym (eq_of_== c 0x2f slash));
      last = none_later;
    }
  ]
]
IsCut-rfind_slash (c ∷ cs) (suc i) e = elim (Option-cases (rfind_slash cs)) [
  | inr (k, later) ↦
      let rest = IsCut-rfind_slash cs i (ground arith) in
      record { whole = ap (◌∷◌ c) rest.whole; last = rest.last }
  | inl none_later ↦ absurd (ground arith)
]

-- A name with a slash is its directory, a slash and its base name, and the base name has no slash.
pub get_dir_name-get_base_name :
    (name : Text) (i : ℕ)
    → rfind_slash name ≡ some i
    → (get_dir_name name ++ 0x2f ∷ get_base_name name ≡ name)
      × (rfind_slash (get_base_name name) ≡ none)
unfolding get_dir_name get_base_name
get_dir_name-get_base_name name i e =
    let cut = IsCut-rfind_slash name i e in
    let next : i + 1 ≡ suc i = omega arith in
    let dir : get_dir_name name ≡ take i name = rw (e, get_dir_name) refl in
    let base : get_base_name name ≡ drop (suc i) name =
      rw (e, get_base_name) (ap (λ n. drop n name) next) in
    (
      ap (λ t. t ++ 0x2f ∷ get_base_name name) dir
          ∙ ap (λ t. take i name ++ 0x2f ∷ t) base
          ∙ cut.whole,
      ap rfind_slash base ∙ cut.last,
    )

[]≢cons : {x : ℕ} {xs : Text} → [] ≢ x ∷ xs
[]≢cons e = cc

strip_end-again : (s : Text) → strip_end (strip_end s) ≡ strip_end s
unfolding strip_end
strip_end-again [] = refl
strip_end-again (c ∷ cs) = on_rest (strip_end cs) (strip_end-again cs)
  where
    on_rest :
        (t : Text)
        → strip_end t ≡ t
        → strip_end
            (elim t as (λ _. Text) [ [] ↦ if is_ws c then [] else c ∷ [] | d ∷ ds ↦ c ∷ d ∷ ds ])
          ≡ (elim t as (λ _. Text) [ [] ↦ if is_ws c then [] else c ∷ [] | d ∷ ds ↦ c ∷ d ∷ ds ])
    on_rest [] h = elim (Bool-cases (is_ws c)) [ inl w ↦ rw w refl | inr n ↦ rw n (rw n refl) ]
    on_rest (d ∷ ds) h = rw h refl

-- What follows a first character that stays is stripped as well.
stripped_tail :
    (c : ℕ) (cs : Text) → is_ws c ≡ true → strip_end (c ∷ cs) ≡ c ∷ cs → strip_end cs ≡ cs
unfolding strip_end
stripped_tail c cs w e = on_rest (strip_end cs) e
  where
    on_rest :
        (t : Text)
        → (elim t as (λ _. Text) [ [] ↦ if is_ws c then [] else c ∷ [] | d ∷ ds ↦ c ∷ d ∷ ds ])
          ≡ c ∷ cs
        → t ≡ cs
    on_rest [] e = absurd ([]≢cons (rw w at e))
    on_rest (d ∷ ds) e = ap (drop 1) e

strip_start-stripped : (t : Text) → strip_end t ≡ t → strip_end (strip_start t) ≡ strip_start t
unfolding strip_start
strip_start-stripped [] e = e
strip_start-stripped (c ∷ cs) e = elim (Bool-cases (is_ws c)) [
  | inl w ↦ rw w (strip_start-stripped cs (stripped_tail c cs w e))
  | inr n ↦ rw n e
]

strip_start-again : (t : Text) → strip_start (strip_start t) ≡ strip_start t
unfolding strip_start
strip_start-again [] = refl
strip_start-again (c ∷ cs) = elim (Bool-cases (is_ws c)) [
  | inl w ↦ rw w (strip_start-again cs)
  | inr n ↦ rw n (rw n refl)
]

-- `StripString` on a string that it has stripped changes nothing.
strip_string-strip_string : (s : Text) → strip_string (strip_string s) ≡ strip_string s
unfolding strip_string
strip_string-strip_string s =
    ap strip_start (strip_start-stripped (strip_end s) (strip_end-again s))
    ∙ strip_start-again (strip_end s)
