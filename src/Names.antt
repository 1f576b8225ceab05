-- ===== src/Names.antt =====
-- The names of system calls and of ptrace events: `StrSyscallName` of src/syscall.cpp, over the numbers
-- of the kernel's header and of src/syscall_x86_64.h or src/syscall_aarch64.h, and `StrPtraceEventName`
-- of src/ptrace.cpp.
pub mod X86
pub mod Common
pub mod Rest
pub mod Fallbacks
pub mod Switch
use optrace.Prelude.{
  ℕ, Bool, true, false, not, ◌&&◌, Option, none, some, List, [], ◌∷◌, ◌++◌, map, Text, text, ◌==◌,
  if◌then◌else◌,
}
use optrace.Prelude.Int.{ℤ, pos, negsuc}
use optrace.Prelude.Texts.{text_eq}
use optrace.Abi.{event_fork, event_vfork, event_clone, event_exec, event_seccomp}
use optrace.Names.X86.{x86_64_cases}
use optrace.Names.Common.{first_cases}
use optrace.Names.Rest.{last_cases}
use optrace.Names.Fallbacks.{x86_64_fallbacks, aarch64_fallbacks}

-- What the program is built for.
pub data Arch : Type 0 where
  x86_64 : Arch
  aarch64 : Arch

abbrev pub assoc : Text → List (Text × ℕ) → Option ℕ
assoc name [] = none
assoc name ((k, n) ∷ m) = if text_eq k name then some n else assoc name m

unfoldable pub fallbacks : Arch → List (Text × ℕ)
unfolding x86_64_fallbacks aarch64_fallbacks
fallbacks x86_64 = x86_64_fallbacks
fallbacks aarch64 = aarch64_fallbacks

-- The number of a `SYS_` macro: `header` is that of the kernel, and each definition of the program
-- stands under an `#ifndef`.
unfoldable pub number_of : Arch → (header : Text → Option ℕ) → Text → Option ℕ
unfolding fallbacks
number_of arch header name = elim (header name) [
  | none ↦ assoc name (fallbacks arch)
  | some n ↦ some n
]

-- A `switch` whose cases return a text: the numbers of the cases, where they are defined, and the texts.
abbrev pub Switch : Type 0
Switch = List (Option ℕ × Text)

abbrev is_case : Option ℕ → ℤ → Bool
is_case none z = false
is_case (some n) (pos m) = n == m
is_case (some n) (negsuc m) = false

abbrev pub switch : Switch → (default : Text) → ℤ → Text
switch [] default z = default
switch ((n, name) ∷ cs) default z =
    let rest = switch cs default z in if is_case n z then name else rest

abbrev pub differs : ℕ → Switch → Bool
differs n [] = true
differs n ((o, name) ∷ cs) = not (is_case o (pos n)) && differs n cs

-- Whether a compiler takes the `switch`: all numbers are defined, and no two are the same.
abbrev pub accepted : Switch → Bool
accepted [] = true
accepted ((none, name) ∷ cs) = false
accepted ((some n, name) ∷ cs) = differs n cs && accepted cs

unfoldable pub cases : Arch → List Text
unfolding x86_64_cases first_cases last_cases
cases x86_64 = x86_64_cases ++ (first_cases ++ last_cases)
cases aarch64 = first_cases ++ last_cases

unfoldable pub numbered : Arch → (Text → Option ℕ) → Switch
unfolding cases number_of
numbered arch header = map (λ name. (number_of arch header name, name)) (cases arch)

unfoldable pub str_syscall_name : Arch → (header : Text → Option ℕ) → ℤ → Text
unfolding numbered
str_syscall_name arch header number = switch (numbered arch header) (text "unknown") number

-- `PTRACE_EVENT_EXIT` and `PTRACE_EVENT_VFORK_DONE`.
abbrev event_exit : ℕ
event_exit = 6

abbrev event_vfork_done : ℕ
event_vfork_done = 5

abbrev pub event_cases : Switch
event_cases =
    (some event_clone, text "PTRACE_EVENT_CLONE")
    ∷ (some event_exec, text "PTRACE_EVENT_EXEC")
    ∷ (some event_exit, text "PTRACE_EVENT_EXIT")
    ∷ (some event_fork, text "PTRACE_EVENT_FORK")
    ∷ (some event_seccomp, text "PTRACE_EVENT_SECCOMP")
    ∷ (some event_vfork, text "PTRACE_EVENT_VFORK")
    ∷ (some event_vfork_done, text "PTRACE_EVENT_VFORK_DONE")
    ∷ []

unfoldable pub str_ptrace_event_name : ℤ → Text
str_ptrace_event_name event = switch event_cases (text "PTRACE_EVENT_UNKNOWN") event
