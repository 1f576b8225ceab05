-- ===== src/FileState.antt =====
-- TFileState of src/types.h and src/types.cpp: what one open file has been written to. `size_t`
-- sums wrap at `2 ^ 64`. The length that `stat` gives is an argument of the constructors.
pub mod Extents
pub mod Flags
use optrace.Prelude.{ℕ, ◌+◌, ◌-◌, ◌^◌, Bool, true, false, not, Option, none, some, Text}
use optrace.Prelude.{bit_and, bit_or, ltb, ◌==◌, if◌then◌else◌, word}

-- fcntl.h on x86_64 Linux.
abbrev pub o_append : ℕ
o_append = 0x400

abbrev pub o_cloexec : ℕ
o_cloexec = 0x80000

pub record FileState : Type 0 where
  pub max_pos : ℕ
  pub curr_pos : ℕ
  pub flags : ℕ
  pub init_size : ℕ
  pub filename : Text

-- What `stat` answers, 0 where it fails.
unfoldable pub get_file_length : Option ℕ → ℕ
get_file_length none = 0
get_file_length (some st_size) = st_size

unfoldable pub is_append_set : FileState → Bool
is_append_set s = not (bit_and s.flags o_append == 0)

unfoldable pub is_cloexec_set : FileState → Bool
is_cloexec_set s = not (bit_and s.flags o_cloexec == 0)

-- The constructor from a name and flags; `stat` is its answer for the name.
unfoldable pub new_file_state : Option ℕ → Text → ℕ → FileState
unfolding get_file_length is_append_set
new_file_state stat filename flags =
    let s : FileState = record {
      max_pos = 0;
      curr_pos = 0;
      flags = flags;
      init_size = get_file_length stat;
      filename = filename;
    } in
    if is_append_set s then record s { curr_pos = s.init_size } else record s { curr_pos = 0 }

-- The copy constructor: all is copied, but the initial size is read again.
unfoldable pub copy_file_state : Option ℕ → FileState → FileState
unfolding get_file_length
copy_file_state stat s = record s { init_size = get_file_length stat }

unfoldable pub set_flags : ℕ → FileState → FileState
set_flags flags s = record s { flags = flags }

unfoldable pub get_output_size : FileState → ℕ
get_output_size s = if ltb s.init_size s.max_pos then s.max_pos - s.init_size else 0

unfoldable pub set_curr_pos : ℕ → FileState → FileState
set_curr_pos pos s = record s { curr_pos = pos }

unfoldable pub enroll : ℕ → FileState → FileState
enroll nbytes s =
    let pos = word (s.curr_pos + nbytes) in
    if ltb s.max_pos pos
    then record s { curr_pos = pos; max_pos = pos }
    else record s { curr_pos = pos }

unfoldable pub enroll_no_shift : ℕ → ℕ → FileState → FileState
enroll_no_shift nbytes offset s =
    let end = word (offset + nbytes) in if ltb s.max_pos end then record s { max_pos = end } else s

-- `~O_CLOEXEC`, sign-extended to 64 bits.
abbrev pub cloexec_mask : ℕ
cloexec_mask = 2 ^ 64 - 1 - o_cloexec

unfoldable pub set_cloexec_flag : Bool → FileState → FileState
set_cloexec_flag true s = record s { flags = bit_or s.flags o_cloexec }
set_cloexec_flag false s = record s { flags = bit_and s.flags cloexec_mask }
