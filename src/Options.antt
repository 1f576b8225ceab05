-- ===== src/Options.antt =====
-- TOptions of src/optrace.h, and `main` of src/main.cpp, which fills it from the command line.
-- `getopt_long` and `atoi` belong to the C library: `main` is given what the one returns, call after
-- call, with `optarg`, and the other is a parameter.
pub mod CommandLine
use optrace.Prelude.{
  ℕ, Bool, true, false, Option, none, some, List, [], ◌∷◌, ◌++◌, Text, ◌==◌, if◌then◌else◌,
}
use optrace.Prelude.Int.{ℤ, pos, negsuc, is_zero}

pub record Options : Type 0 where
  pub output : Text
  pub append_output : Bool
  pub follow_forks : Bool
  pub wait_daemons : Bool
  pub jail_forks : Bool
  pub human_readable_sizes : Bool
  pub files_in_report : ℤ
  pub command_length_limit : ℤ
  pub use_sec_comp : Bool
  pub search_for_core_dumps : Bool
  pub forwarding_signals : List ℤ
  pub forward_all_signals : Bool
  pub store_empty_files : Bool
  pub interruption_target : Text
  pub interruption_signal : ℤ

-- `SIGINT` and `SIGABRT`.
abbrev pub sigint : ℤ
sigint = pos 2

abbrev pub sigabrt : ℤ
sigabrt = pos 6

unfoldable pub get_defaults : Options
get_defaults = record {
  output = [];
  append_output = false;
  follow_forks = true;
  wait_daemons = false;
  jail_forks = true;
  human_readable_sizes = false;
  files_in_report = negsuc 0;
  command_length_limit = pos 120;
  use_sec_comp = true;
  search_for_core_dumps = true;
  forwarding_signals = sigint ∷ [];
  forward_all_signals = false;
  store_empty_files = false;
  interruption_target = [];
  interruption_signal = pos 0;
}

-- `optarg[0] == '-'`.
abbrev pub begins_with_minus : Text → Bool
begins_with_minus [] = false
begins_with_minus (c ∷ cs) = c == 45

-- What a case of the `switch` does: `break`, with the options as they are then, or `return`.
pub data Step : Type 0 where
  proceed : Options → Step
  leave : ℕ → Step

-- `main` after the loop: `has_program` is that `optind` is not `argc`, and `can_write` whether the
-- output file opens, to be appended to or not.
unfoldable pub check_output : Bool → (Text → Bool → Bool) → Options → Step
check_output false can_write o = leave 1
check_output true can_write o = elim o.output [
  | [] ↦ proceed o
  | c ∷ cs ↦ if can_write o.output o.append_output then proceed o else leave 1
]

module _ (atoi : Text → ℤ) where
  -- The value of `-c` and `-r`.
  abbrev pub limit_of : Text → ℤ
  limit_of arg = if begins_with_minus arg then negsuc 0 else atoi arg

  -- The `switch` on the character: F J W h o a c r C D s S e i I, and `?` for an error.
  unfoldable pub option_step : ℕ → Text → Options → Step
  option_step c arg o =
      if c == 0
      then leave 0
      else if c == 70
      then proceed (record o { follow_forks = false })
      else if c == 74
      then proceed (record o { jail_forks = false })
      else if c == 87
      then proceed (record o { wait_daemons = true })
      else if c == 104
      then proceed (record o { human_readable_sizes = true })
      else if c == 111
      then proceed (record o { output = arg })
      else if c == 97
      then proceed (record o { append_output = true })
      else if c == 99
      then proceed (record o { command_length_limit = limit_of arg })
      else if c == 114
      then proceed (record o { files_in_report = limit_of arg })
      else if c == 67
      then proceed (record o { use_sec_comp = false })
      else if c == 68
      then proceed (record o { search_for_core_dumps = false })
      else if c == 115
      then proceed (record o { forwarding_signals = o.forwarding_signals ++ atoi arg ∷ [] })
      else if c == 83
      then proceed (record o { forward_all_signals = true })
      else if c == 101
      then proceed (record o { store_empty_files = true })
      else if c == 105
      then proceed (record o {
        interruption_target = arg;
        interruption_signal =
            if is_zero o.interruption_signal then sigabrt else o.interruption_signal;
      })
      else if c == 73
      then proceed (record o { interruption_signal = atoi arg })
      else if c == 63
      then leave 1
      else proceed o

  -- The loop, over what `getopt_long` returns before it returns -1.
  unfoldable pub read_options : List (ℕ × Text) → Options → Step
  unfolding option_step
  read_options [] o = proceed o
  read_options ((c, arg) ∷ rest) o = elim (option_step c arg o) [
    | leave n ↦ leave n
    | proceed next ↦ read_options rest next
  ]

  -- `main`, up to the call of `TraceProgram`.
  unfoldable pub main : List (ℕ × Text) → Bool → (Text → Bool → Bool) → Step
  unfolding read_options get_defaults
  main args has_program can_write = elim (read_options args get_defaults) [
    | leave n ↦ leave n
    | proceed o ↦ check_output has_program can_write o
  ]
