-- ===== src/Sizes.antt =====
-- `HumanReadableSize` of src/utils.cpp.
pub mod Bounds
use optrace.Prelude.{
  ℕ, zero, suc, ◌+◌, ◌*◌, ◌/◌, ◌%◌, ◌^◌, Bool, true, false, ◌&&◌, Option, none, some, List, [], ◌∷◌,
  ◌++◌, Text, text, length, leb, ◌==◌, if◌then◌else◌,
}
use optrace.Utils.{decimal}

-- What the C library computes: `(int)std::log2(n)` and `(int)std::log10(n)`, and the tenths that "%.1f" rounds the number
-- of bytes over `1024 ^ k` to, as the decimal digits that it prints.
pub record Libc : Type 0 where
  pub log2 : ℕ → ℕ
  pub log10 : ℕ → ℕ
  pub tenths : (bytes k : ℕ) → ℕ

-- The table of suffixes.
abbrev pub suffixes : List Text
suffixes = text "b" ∷ text "KiB" ∷ text "MiB" ∷ text "GiB" ∷ text "PiB" ∷ []

-- The size of the static buffer.
abbrev pub buff_size : ℕ
buff_size = 8

-- `sprintf` into the buffer: undefined if the text does not fit with its terminating zero.
unfoldable pub print_into_buff : Text → Option Text
print_into_buff t = if leb (length t + 1) buff_size then some t else none

-- `suffixes[k]`: undefined past the end of the table.
unfoldable pub suffix_at : List Text → ℕ → Option Text
suffix_at [] k = none
suffix_at (s ∷ ss) zero = some s
suffix_at (s ∷ ss) (suc k) = suffix_at ss k

-- "%3.1f", for a value that is not negative; it has three characters at least.
unfoldable pub one_decimal : ℕ → Text
unfolding decimal
one_decimal tenths = decimal (tenths / 10) ++ (text "." ++ decimal (tenths % 10))

-- The digits for a value of `bytes` over `1024 ^ k`. A `double` holds it exactly below `2 ^ 53`.
unfoldable pub value_text : Libc → (bytes k : ℕ) → Text
unfolding decimal one_decimal
value_text c bytes k =
    if leb (100 * 1024 ^ k) bytes
    then decimal (bytes / 1024 ^ k)
    else one_decimal (c.tenths bytes k)

-- `HumanReadableSize`; `none` is undefined behaviour.
unfoldable pub human_readable_size : Libc → ℕ → Option Text
unfolding value_text suffix_at print_into_buff
human_readable_size c bytes =
    let k = c.log2 bytes / 10 in
    if bytes == 0
    then some (text "0")
    else if k == 0
    then print_into_buff (decimal bytes ++ text "b")
    else elim (suffix_at suffixes k) [
      | none ↦ none
      | some suffix ↦ print_into_buff (value_text c bytes k ++ suffix)
    ]
