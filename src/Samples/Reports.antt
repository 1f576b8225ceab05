-- ===== src/Samples/Reports.antt =====
-- Reports and sizes.
use native.Mathlib.Nat.{div-add-mod, mod-lt, one-le-pow}
use optrace.Prelude.{
  ℕ, ◌+◌, ◌*◌, ◌/◌, ◌^◌, ◌≤◌, ◌≡◌, refl, inr, none, some, List, [], ◌∷◌, ◌++◌, Text, text, length,
  All, arith,
}
use optrace.Types.{OutputFile}
use optrace.Sizes.{human_readable_size}
use optrace.Sizes.Bounds.{IsLibc, human_readable_size-overflows}
use optrace.Report.{max_size, padding, size_column}
use optrace.Report.Columns.{size_column-width}
use optrace.Samples.Files.{options, info, log_fuel, libc}

-- The nearest tenth.
nearest :
    (n K : ℕ)
    → 1 ≤ K
    → (n ≤ 2 * ((n + K) / (2 * K) * K) + K) × (2 * ((n + K) / (2 * K) * K) ≤ n + K)
nearest n K h =
    let whole = div-add-mod (n + K) (2 * K) in
    let rest = mod-lt (n + K) {m = 2 * K} (omega arith) in
    (omega (arith, whole, rest), omega (arith, whole, rest))

-- 4.9KiB.
five_thousand_text : human_readable_size libc 5000 ≡ some (text "4.9KiB")
unfolding human_readable_size log_fuel
five_thousand_text = refl

-- 102380 bytes are 99.98KiB, which is rounded to 100.0KiB.
near_hundred : IsLibc libc 102380
unfolding log_fuel
near_hundred = record {
  log2_low = omega arith;
  log2_high = omega arith;
  tenths_low = λ k. (nearest (20 * 102380) (1024 ^ k) (one-le-pow k 1024 (omega arith))).0;
  tenths_high = λ k. (nearest (20 * 102380) (1024 ^ k) (one-le-pow k 1024 (omega arith))).1;
}

human_readable_size-overflows_example : human_readable_size libc 102380 ≡ none
unfolding log_fuel
human_readable_size-overflows_example =
    human_readable_size-overflows libc 102380 near_hundred (omega arith)
      (inr (omega arith, omega arith))

abbrev written : ℕ → ℕ → OutputFile
written size address = record {
  size = size;
  filename = text "/t/a";
  proc_info = record info { address = address };
}

abbrev files : List OutputFile
files = written 5000 7 ∷ written 12 8 ∷ written 4 7 ∷ []

size_column-width_example :
    All
      (λ f.
        (t : Text) × (size_column libc options (padding libc options files) f.size
          ≡ some (text "  " ++ t))
        × (length t + 1 ≡ padding libc options files))
      files
unfolding log_fuel max_size
size_column-width_example = size_column-width libc options files refl (omega arith)
