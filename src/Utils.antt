-- ===== src/Utils.antt =====
-- The text and file helpers of src/utils.cpp, over the bytes that the host hands out.
pub mod Strings
pub mod Digits
pub mod Status
use optrace.Prelude.{
  ℕ, zero, suc, ◌+◌, ◌-◌, ◌/◌, ◌%◌, ◌*◌, ◌^◌, ltb, ◌&&◌, Bool, true, false, not, ◌||◌, Option, none,
  some, List, [], ◌∷◌, ◌++◌, map, Text, text, take, drop, length, ◌==◌, if◌then◌else◌, leb,
}
use optrace.Prelude.Int.{ℤ, pos, negsuc}
use optrace.Host.{Host}

-- The characters of `" \t\n\r"`.
abbrev pub is_ws : ℕ → Bool
is_ws c = (c == 0x20) || (c == 0x09) || (c == 0x0a) || (c == 0x0d)

-- `str.erase(str.find_last_not_of(ws) + 1)`.
unfoldable pub strip_end : Text → Text
strip_end [] = []
strip_end (c ∷ cs) = elim (strip_end cs) [
  | [] ↦ if is_ws c then [] else c ∷ []
  | d ∷ ds ↦ c ∷ d ∷ ds
]

-- `str.erase(0, str.find_first_not_of(ws))`.
unfoldable pub strip_start : Text → Text
strip_start [] = []
strip_start (c ∷ cs) = if is_ws c then strip_start cs else c ∷ cs

unfoldable pub strip_string : Text → Text
unfolding strip_end strip_start
strip_string str = strip_start (strip_end str)

-- `ReadFileSafe`: a negative limit reads all, 0 nothing. A file that cannot be opened is empty.
unfoldable pub read_limited : Text → ℤ → Text
read_limited contents (negsuc n) = contents
read_limited contents (pos limit) = take limit contents

unfoldable pub read_file_safe : Host → Text → ℤ → Text
unfolding read_limited strip_string
read_file_safe h filename limit = elim (h.read_file filename) [
  | none ↦ []
  | some contents ↦ strip_string (read_limited contents limit)
]

-- Where the last `/` stands: `rfind("/")`.
unfoldable pub rfind_slash : Text → Option ℕ
rfind_slash [] = none
rfind_slash (c ∷ cs) = elim (rfind_slash cs) [
  | some i ↦ some (suc i)
  | none ↦ if c == 0x2f then some 0 else none
]

unfoldable pub get_dir_name : Text → Text
unfolding rfind_slash
get_dir_name filename = elim (rfind_slash filename) [ none ↦ text "/" | some i ↦ take i filename ]

unfoldable pub get_base_name : Text → Text
unfolding rfind_slash
get_base_name filename = elim (rfind_slash filename) [ none ↦ [] | some i ↦ drop (i + 1) filename ]

unfoldable pub get_cwd : Host → Text
get_cwd h = elim h.getcwd [ none ↦ [] | some dir ↦ dir ]

-- A number as `std::ostream` prints it. A step takes a digit off, so `n + 1` steps are enough.
unfoldable pub digits_fuel : ℕ → ℕ → Text → Text
digits_fuel zero n acc = acc
digits_fuel (suc fuel) n acc =
    let digit = (0x30 + n % 10) ∷ acc in
    let rest = digits_fuel fuel (n / 10) digit in if n / 10 == 0 then digit else rest

unfoldable pub decimal : ℕ → Text
unfolding digits_fuel
decimal n = digits_fuel (n + 1) n []

-- `ss << "/proc/" << pid << suffix`.
unfoldable pub proc_path : ℕ → Text → Text
unfolding decimal
proc_path pid suffix = text "/proc/" ++ (decimal pid ++ suffix)

-- `GetCommandLine`: the arguments, which end in NUL, joined by blanks.
unfoldable pub get_command_line : Host → ℕ → ℤ → Text
unfolding read_file_safe proc_path
get_command_line h pid limit =
    map (λ c. if c == 0 then 0x20 else c) (read_file_safe h (proc_path pid (text "/cmdline")) limit)

-- A digit of `parseLine`, and `atoi` of digits; more than an `int` holds is undefined.
abbrev pub is_digit : ℕ → Bool
is_digit c = not (ltb c 0x30) && not (ltb 0x39 c)

unfoldable pub digits_value : ℕ → Text → ℕ
digits_value v [] = v
digits_value v (c ∷ cs) = if is_digit c then digits_value (10 * v + (c - 0x30)) cs else v

unfoldable pub atoi : Text → Option ℕ
unfolding digits_value
atoi t = if ltb (digits_value 0 t) (2 ^ 31) then some (digits_value 0 t) else none

-- `parseLine`; without a digit it reads on past the end: `none`.
unfoldable pub parse_line : Text → Option ℕ
unfolding atoi
parse_line [] = none
parse_line (c ∷ cs) = if is_digit c then atoi (c ∷ cs) else parse_line cs

-- `strstr`: the text from the first occurrence on.
abbrev pub starts_with : Text → Text → Bool
starts_with [] t = true
starts_with (p ∷ ps) [] = false
starts_with (p ∷ ps) (c ∷ cs) = (c == p) && starts_with ps cs

unfoldable pub strstr : Text → Text → Option Text
strstr [] pattern = if starts_with pattern [] then some [] else none
strstr (c ∷ cs) pattern = if starts_with pattern (c ∷ cs) then some (c ∷ cs) else strstr cs pattern

-- What /proc/self/status tells, unless an `assert` fails or the code reads past the end of its buffer.
pub data Told (A : Type 0) : Type 0 where
  told : A → Told A
  assert_fails : Told A
  not_defined : Told A

-- The first loop of `MyHighestFd`, where a `read` gives what it can: `line` is full after 511 bytes, or
-- empty with the file. After fewer bytes the next `read` goes to `&line + size`, which is `size` arrays of
-- 512 bytes further, outside `line`.
unfoldable pub fill_line : Text → Told Text
fill_line [] = told []
fill_line (c ∷ cs) = if leb 511 (length (c ∷ cs)) then told (take 511 (c ∷ cs)) else not_defined

-- The entry in the line, and its number.
unfoldable pub fd_size_in : Text → Told ℕ
unfolding strstr parse_line
fd_size_in line = elim (strstr line (text "FDSize:")) [
  | none ↦ assert_fails
  | some entry ↦ elim (parse_line (drop 7 entry)) [ none ↦ not_defined | some n ↦ told n ]
]

-- The first part of `MyHighestFd`, for the contents of /proc/self/status.
unfoldable pub fd_size_of : Text → Told ℕ
unfolding fill_line fd_size_in
fd_size_of status = elim (fill_line status) [
  | told line ↦ fd_size_in line
  | assert_fails ↦ assert_fails
  | not_defined ↦ not_defined
]

-- The second loop of `MyHighestFd`: the highest open descriptor up to `fd`, none for -1.
unfoldable pub highest_open : (ℕ → Option ℕ) → ℕ → Option ℕ
highest_open flags zero = elim (flags 0) [ none ↦ none | some f ↦ some 0 ]
highest_open flags (suc fd) = elim (flags (suc fd)) [
  | none ↦ highest_open flags fd
  | some f ↦ some (suc fd)
]

-- The bytes of a file; none where it cannot be opened, since then `read` fails too.
abbrev pub contents_of : Option Text → Text
contents_of none = []
contents_of (some t) = t

-- `MyHighestFd`: none for -1.
unfoldable pub my_highest_fd : Host → Told (Option ℕ)
unfolding highest_open fd_size_of
my_highest_fd h = elim (fd_size_of (contents_of (h.read_file (text "/proc/self/status")))) [
  | told size ↦ told (highest_open h.fd_flags size)
  | assert_fails ↦ assert_fails
  | not_defined ↦ not_defined
]
