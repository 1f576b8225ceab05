-- ===== src/Report/Columns.antt =====
-- The column of the sizes in the report.
use optrace.Prelude.{
  ℕ, zero, suc, ◌+◌, ◌-◌, ◌^◌, ◌≤◌, ◌<◌, ◌≡◌, refl, ap, subst, Bool, true, false, some, List, [],
  ◌∷◌, ◌++◌, Text, text, length, replicate, All, ◌==◌, if◌then◌else◌, ◌||◌, arith, length-append,
}
use optrace.Utils.{decimal}
use optrace.Options.{Options}
use optrace.Types.{OutputFile}
use optrace.Sizes.{Libc}
use optrace.Utils.Digits.{length-decimal}
use optrace.Report.{setw, max_size, padding, size_column}

length-replicate {ℓ} : {A : Type ℓ} (n : ℕ) (a : A) → length (replicate n a) ≡ n
length-replicate zero a = refl
length-replicate (suc n) a = ap suc (length-replicate n a)

-- `setw` fills up to the width.
length-setw : (width : ℕ) (t : Text) → length t ≤ width → length (setw width t) ≡ width
unfolding setw
length-setw width t h = omega (
  arith,
  length-append (replicate (width - length t) 0x20) t,
  length-replicate {A = ℕ} (width - length t) 0x20,
)

below_max : (n : ℕ) (fs : List OutputFile) → max_size fs ≤ n → All (λ f. f.size ≤ n) fs
unfolding max_size
below_max n [] h = tt
below_max n (f ∷ fs) h = (ground arith, below_max n fs (ground arith))

All-map {ℓ κ ι} :
    {A : Type ℓ} (P : A → Type κ) (Q : A → Type ι) (xs : List A)
    → ((x : A) → P x → Q x)
    → All P xs
    → All Q xs
All-map P Q [] f h = tt
All-map P Q (x ∷ xs) f h = (f x h.0, All-map P Q xs f h.1)

-- Two blanks at least, if the text leaves room for them.
setw_blanks :
    (width : ℕ) (t : Text) → length t + 2 ≤ width → setw width t ≡ 0x20 ∷ 0x20 ∷ setw (width - 2) t
unfolding setw
setw_blanks width t h =
    ap (λ n. replicate n 0x20 ++ t) (two (width - length t) (width - 2 - length t) (omega arith))
  where
    two : (n m : ℕ) → n ≡ m + 2 → n ≡ suc (suc m)
    two n m e = omega arith

module _ (c : Libc) (opts : Options) (width : ℕ) (bytes : opts.human_readable_sizes ≡ false) where
  abbrev InColumn : OutputFile → Type 0
  InColumn f =
      (t : Text) × (size_column c opts width f.size ≡ some (text "  " ++ t))
      × (length t + 1 ≡ width)

  fitting : (f : OutputFile) → length (decimal f.size) + 2 ≤ width → InColumn f
  unfolding size_column
  fitting f h =
      let t = setw (width - 2) (decimal f.size) ++ text "b" in
      (
        t,
        rw (bytes, setw_blanks width (decimal f.size) h) refl,
        omega (
          arith,
          h,
          length-append (setw (width - 2) (decimal f.size)) (text "b"),
          length-setw (width - 2) (decimal f.size) (omega (arith, h)),
        ),
      )

plus_one : (n : ℕ) → n + 1 ≡ suc n
plus_one n = omega arith

-- In a report with sizes in bytes, the sizes of all files stand in a column of the same width, at least
-- two blanks before each; if `log10` of the largest size is rounded down.
pub size_column-width :
    (c : Libc) (opts : Options) (files : List OutputFile)
    → opts.human_readable_sizes ≡ false
    → max_size files < 10 ^ (c.log10 (max_size files) + 1)
    → All
        (λ f.
          (t : Text) × (size_column c opts (padding c opts files) f.size ≡ some (text "  " ++ t))
          × (length t + 1 ≡ padding c opts files))
        files
unfolding padding
size_column-width c opts files bytes small =
    on_max opts.human_readable_sizes (max_size files == 0) bytes refl
  where
    below : max_size files < 10 ^ suc (c.log10 (max_size files))
    below = subst (λ n. max_size files < 10 ^ n) (plus_one (c.log10 (max_size files))) small

    on_max :
        (human empty : Bool)
        → human ≡ false
        → (max_size files == 0) ≡ empty
        → All
            (InColumn c opts (if human || empty then 9 else c.log10 (max_size files) + 3) bytes)
            files
    on_max true empty h e = absurd (ground arith)
    on_max false true h e =
        All-map _ _ files
          (λ f h.
            fitting c opts 9 bytes f
              (omega (arith, length-decimal f.size 6 (ground (arith, h, e)))))
          (below_max (max_size files) files (omega arith))
    on_max false false h e =
        All-map _ _ files
          (λ f h. fitting c opts (c.log10 (max_size files) + 3) bytes f (
            omega
              (arith, length-decimal f.size (c.log10 (max_size files)) (omega (arith, h, below)))))
          (below_max (max_size files) files (omega arith))
