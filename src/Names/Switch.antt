-- ===== src/Names/Switch.antt =====
-- What a `switch` that the compiler takes makes of a number.
use optrace.Prelude.{
  ℕ, zero, suc, ◌<◌, ◌≡◌, ◌≢◌, refl, ap, sym, ◌∙◌, true, false, Option, none, some, List, [], ◌∷◌,
  map, Text, text, get_elem?, ◌==◌, arith, Bool-cases, inl, inr,
}
use optrace.Prelude.Int.{pos}
use optrace.Names.{
  Arch, aarch64, number_of, Switch, switch, differs, accepted, cases, numbered, str_syscall_name,
  fallbacks, assoc,
}

differs-at :
    (cs : Switch) (i m n : ℕ) (name : Text)
    → differs m cs ≡ true
    → get_elem? cs i ≡ some (some n, name)
    → (m == n) ≡ false
differs-at [] i m n name d e = absurd (ground arith)
differs-at ((o, t) ∷ cs) zero m n name d e = ground arith
differs-at ((o, t) ∷ cs) (suc i) m n name d e = differs-at cs i m n name (ground arith) e

switch-at :
    (cs : Switch) (i n : ℕ) (name default : Text)
    → accepted cs ≡ true
    → get_elem? cs i ≡ some (some n, name)
    → switch cs default (pos n) ≡ name
switch-at [] i n name default a e = absurd (ground arith)
switch-at ((none, t) ∷ cs) i n name default a e = absurd (ground arith)
switch-at ((some m, t) ∷ cs) zero n name default a e = ground arith
switch-at ((some m, t) ∷ cs) (suc i) n name default a e =
    ground (arith, differs-at cs i m n name, switch-at cs i n name default)

accepted-at :
    (cs : Switch) (i : ℕ) (o : Option ℕ) (name : Text)
    → accepted cs ≡ true
    → get_elem? cs i ≡ some (o, name)
    → (n : ℕ) × (o ≡ some n)
accepted-at [] i o name a e = absurd (ground arith)
accepted-at ((none, t) ∷ cs) i o name a e = absurd (ground arith)
accepted-at ((some m, t) ∷ cs) zero o name a e = (m, ground arith)
accepted-at ((some m, t) ∷ cs) (suc i) o name a e = accepted-at cs i o name (ground arith) e

switch-default :
    (cs : Switch) (n : ℕ) (default : Text)
    → ((i : ℕ) (name : Text) → get_elem? cs i ≡ some (some n, name) → ⊥)
    → switch cs default (pos n) ≡ default
switch-default [] n default h = refl
switch-default ((none, t) ∷ cs) n default h = switch-default cs n default (λ i. h (suc i))
switch-default ((some m, t) ∷ cs) n default h = elim (Bool-cases (m == n)) [
  | inl same ↦ absurd (h 0 t (ground arith))
  | inr other ↦ rw other (switch-default cs n default (λ i. h (suc i)))
]

get_elem?-map {ℓ κ} :
    {A : Type ℓ} {B : Type κ} (f : A → B) (xs : List A) (i : ℕ) {x : A}
    → get_elem? xs i ≡ some x
    → get_elem? (map f xs) i ≡ some (f x)
get_elem?-map f [] i e = absurd (ground arith)
get_elem?-map f (x ∷ xs) zero e = ap (λ o. elim o [ none ↦ none | some y ↦ some (f y) ]) e
get_elem?-map f (x ∷ xs) (suc i) e = get_elem?-map f xs i e

map-get_elem? :
    (f : Text → Option ℕ) (xs : List Text) (i n : ℕ) (name : Text)
    → get_elem? {A = Option ℕ × Text} (map (λ t. (f t, t)) xs) i ≡ some (some n, name)
    → (get_elem? xs i ≡ some name) × (f name ≡ some n)
map-get_elem? f [] i n name e = absurd (ground arith)
map-get_elem? f (x ∷ xs) zero n name e =
    let same : some x ≡ some name =
      ap (λ (o : Option (Option ℕ × Text)). elim o [ none ↦ none | some p ↦ some p.1 ]) e in
    let defined : f x ≡ some n =
      ap (λ (o : Option (Option ℕ × Text)). elim o [ none ↦ none | some p ↦ p.0 ]) e in
    (same, ap (λ o. elim o [ none ↦ none | some t ↦ f t ]) (sym same) ∙ defined)
map-get_elem? f (x ∷ xs) (suc i) n name e = map-get_elem? f xs i n name e

-- The number of a case that a switch has, and the name that it has for the number.
module _ (arch : Arch) (header : Text → Option ℕ)
    (compiles : accepted (numbered arch header) ≡ true) where
  -- If the compiler takes the switch of `StrSyscallName`, every case has a number, for which the function
  -- returns the name of the case, and it returns "unknown" for a number that no case has.
  str_syscall_name-number_of :
      ((i : ℕ) (name : Text)
        → get_elem? (cases arch) i ≡ some name
        → (n : ℕ) × (number_of arch header name ≡ some n)
          × (str_syscall_name arch header (pos n) ≡ name))
      × ((n : ℕ)
          → ((i : ℕ) (name : Text)
              → get_elem? (cases arch) i ≡ some name
              → number_of arch header name ≢ some n)
          → str_syscall_name arch header (pos n) ≡ text "unknown")
  unfolding str_syscall_name numbered
  str_syscall_name-number_of = (
    listed,
    λ n h. switch-default (numbered arch header) n (text "unknown") (λ i name e.
        let (at, number) = map-get_elem? (number_of arch header) (cases arch) i n name e in
        h i name at number),
  )
    where
      listed :
          (i : ℕ) (name : Text)
          → get_elem? (cases arch) i ≡ some name
          → (n : ℕ) × (number_of arch header name ≡ some n)
            × (str_syscall_name arch header (pos n) ≡ name)
      listed i name e =
          let at : get_elem? {A = Option ℕ × Text} (numbered arch header) i
              ≡ some (number_of arch header name, name) =
            get_elem?-map (λ t. (number_of arch header t, t)) (cases arch) i e in
          let (n, d) =
            accepted-at (numbered arch header) i (number_of arch header name) name compiles at in
          let found : get_elem? {A = Option ℕ × Text} (numbered arch header) i
              ≡ some (some n, name) =
            at ∙ ap (λ (o : Option ℕ). some (o, name)) d in
          (n, d, switch-at (numbered arch header) i n name (text "unknown") compiles found)

-- No compiler takes a switch in which two cases have the same number.
twice-refused :
    (cs : Switch) (i j n : ℕ) (name other : Text)
    → i < j
    → get_elem? cs i ≡ some (some n, name)
    → get_elem? cs j ≡ some (some n, other)
    → accepted cs ≡ false
twice-refused [] i j n name other l e f = absurd (ground arith)
twice-refused ((o, t) ∷ cs) i zero n name other l e f = absurd (omega arith)
twice-refused ((none, t) ∷ cs) zero (suc j) n name other l e f = refl
twice-refused ((some m, t) ∷ cs) zero (suc j) n name other l e f =
    ground (arith, differs-at cs j m n other, e)
twice-refused ((none, t) ∷ cs) (suc i) (suc j) n name other l e f = refl
twice-refused ((some m, t) ∷ cs) (suc i) (suc j) n name other l e f =
    ground (arith, twice-refused cs i j n name other)

-- On aarch64 with a header that has neither number, the compiler refuses the switch, since the program
-- defines `SYS_sched_getattr` and `SYS_renameat2` as the same number.
pub accepted-renameat2 :
    (header : Text → Option ℕ)
    → header (text "SYS_renameat2") ≡ none
    → header (text "SYS_sched_getattr") ≡ none
    → accepted (numbered aarch64 header) ≡ false
unfolding numbered number_of cases fallbacks optrace.Names.Common.first_cases
    optrace.Names.Rest.last_cases optrace.Names.Fallbacks.aarch64_fallbacks
accepted-renameat2 header r s =
    twice-refused (numbered aarch64 header) 174 188 275 (text "SYS_renameat2")
      (text "SYS_sched_getattr") (omega arith)
      (numbered_case 174 (text "SYS_renameat2") refl r refl)
      (numbered_case 188 (text "SYS_sched_getattr") refl s refl)
  where
    numbered_case :
        (i : ℕ) (name : Text)
        → get_elem? (cases aarch64) i ≡ some name
        → header name ≡ none
        → assoc name (fallbacks aarch64) ≡ some 275
        → get_elem? {A = Option ℕ × Text} (numbered aarch64 header) i ≡ some (some 275, name)
    numbered_case i name at missing fallback =
        get_elem?-map (λ t. (number_of aarch64 header t, t)) (cases aarch64) i at
        ∙ rw (number_of, missing, fallback) refl
