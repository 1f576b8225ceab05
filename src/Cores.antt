-- ===== src/Cores.antt =====
-- src/cores.cpp: where the kernel may have left the core dump of a process.
pub mod Masks
use optrace.Prelude.{
  ℕ, Bool, true, false, Option, none, some, List, [], ◌∷◌, ◌++◌, Text, text, ◌||◌, ◌&&◌, ◌==◌,
  if◌then◌else◌,
}
use optrace.Prelude.Int.{negsuc}
use optrace.Prelude.Texts.{text_eq}
use optrace.Host.{Host, DirEntry}
use optrace.Utils.{read_file_safe, get_dir_name, get_base_name, decimal}

-- TCorePattern.
pub record CorePattern : Type 0 where
  pub path : Text
  pub mask : Text

-- `s.find(c, 0) == 0`.
abbrev pub begins_with : ℕ → Text → Bool
begins_with c [] = false
begins_with c (d ∷ ds) = d == c

abbrev pub is_empty : Text → Bool
is_empty [] = true
is_empty (c ∷ cs) = false

-- The directory of `defaultPattern`, with the slash that is added to it.
unfoldable pub default_path : Text → Text → Text
default_path core_pattern cwd =
    (if begins_with b'/' core_pattern then get_dir_name core_pattern else cwd) ++ text "/"

unfoldable pub default_mask : Host → Text → Text
default_mask h core_pattern =
    let uses_pid = read_file_safe h (text "/proc/sys/kernel/core_uses_pid") (negsuc 0) in
    if is_empty core_pattern || begins_with b'|' core_pattern
    then (if is_empty uses_pid || text_eq uses_pid (text "0") then text "core" else text "core.%p")
    else get_base_name core_pattern

unfoldable pub patterns : Host → Text → List CorePattern
unfolding default_path default_mask
patterns h cwd =
    let core_pattern = read_file_safe h (text "/proc/sys/kernel/core_pattern") (negsuc 0) in
    record { path = default_path core_pattern cwd; mask = default_mask h core_pattern }
    ∷ record { path = text "/coredumps/"; mask = text "%e.%p.%s" }
    ∷ record { path = text "/coredumps/"; mask = text "*%p*" }
    ∷ record { path = text "/cores/"; mask = text "*%p*" }
    ∷ record { path = text "/var/lib/systemd/coredump"; mask = text "*%p*" }
    ∷ []

-- What `ResolveMask` writes for the character behind a `%`.
unfoldable pub specifier : (pid : ℕ) (comm : Text) (term_sig : ℕ) → ℕ → Text
specifier pid comm term_sig c =
    if c == 0
    then []
    else if c == b'%'
    then c ∷ []
    else if c == b'p'
    then decimal pid
    else if c == b'e'
    then comm
    else if c == b's'
    then decimal term_sig
    else text "*"

abbrev pub prepend : Text → Option Text → Option Text
prepend out none = none
prepend out (some rest) = some (out ++ rest)

-- `ResolveMask`. Behind a `%` at the end of the mask the iterator is moved past the end, and the loop
-- does not stop there: `none`.
unfoldable pub resolve_mask : (pid : ℕ) (comm : Text) (term_sig : ℕ) → Text → Option Text
unfolding specifier
resolve_mask pid comm term_sig [] = some []
resolve_mask pid comm term_sig (a ∷ []) = if a == b'%' then none else some (a ∷ [])
resolve_mask pid comm term_sig (a ∷ b ∷ cs) =
    let after_percent =
      prepend (specifier pid comm term_sig b) (resolve_mask pid comm term_sig cs) in
    let plain = prepend (a ∷ []) (resolve_mask pid comm term_sig (b ∷ cs)) in
    if a == b'%' then after_percent else plain

-- The `readdir` loop: the first regular file whose name matches.
unfoldable pub first_match : (Text → Text → Bool) → Text → List DirEntry → Option Text
first_match fnmatch mask [] = none
first_match fnmatch mask (e ∷ es) =
    let rest = first_match fnmatch mask es in
    if e.is_regular && fnmatch mask e.d_name then some e.d_name else rest

-- The loop over the patterns. `none` is the undefined behaviour of `ResolveMask`; the empty name means
-- that no file was found.
unfoldable pub search_patterns :
    Host → (pid : ℕ) (comm : Text) (term_sig : ℕ) → List CorePattern → Option Text
unfolding first_match
search_patterns h pid comm term_sig [] = some []
search_patterns h pid comm term_sig (p ∷ ps) =
    let rest = search_patterns h pid comm term_sig ps in
    elim (resolve_mask pid comm term_sig p.mask) [
      | none ↦ none
      | some mask ↦ elim (h.read_dir p.path) [
        | none ↦ rest
        | some entries ↦ elim (first_match h.fnmatch mask entries) [
          | none ↦ rest
          | some name ↦ some (p.path ++ name)
        ]
      ]
    ]

-- `RecoverCoreDumpFile`.
unfoldable pub recover_core_dump_file :
    Host → (pid : ℕ) (comm cwd : Text) (term_sig : ℕ) → Option Text
unfolding patterns search_patterns
recover_core_dump_file h pid comm cwd term_sig =
    search_patterns h pid comm term_sig (patterns h cwd)
