-- ===== src/Samples/Names.antt =====
-- Names of system calls.
use optrace.Prelude.{ℕ, ◌+◌, ◌*◌, ◌≡◌, refl, true, false, Option, none, some, [], ◌∷◌, Text, text}
use optrace.Prelude.Int.{pos, negsuc}
use optrace.Names.{
  x86_64, aarch64, number_of, accepted, cases, numbered, str_syscall_name, str_ptrace_event_name,
}
use optrace.Names.Switch.{accepted-renameat2}

-- A header in which a name, read as digits in base 256, is its number.
abbrev digits : ℕ → Text → ℕ
digits n [] = n
digits n (c ∷ cs) = digits (n * 256 + c) cs

abbrev header : Text → Option ℕ
header name = some (digits 0 name)

compiles : accepted (numbered x86_64 header) ≡ true
unfolding numbered cases number_of optrace.Names.Common.first_cases optrace.Names.Rest.last_cases
    optrace.Names.X86.x86_64_cases
compiles = refl

-- A header from before 2014.
abbrev old_header : Text → Option ℕ
old_header name = none

accepted-renameat2_example : accepted (numbered aarch64 old_header) ≡ false
accepted-renameat2_example = accepted-renameat2 old_header refl refl

-- -2, as `GetSyscallNumber` may return it, and an event of ptrace.
negative_name : str_syscall_name x86_64 old_header (negsuc 1) ≡ text "unknown"
unfolding str_syscall_name numbered cases number_of optrace.Names.Common.first_cases
    optrace.Names.Rest.last_cases optrace.Names.X86.x86_64_cases
negative_name = refl

event_name : str_ptrace_event_name (pos 7) ≡ text "PTRACE_EVENT_SECCOMP"
unfolding str_ptrace_event_name
event_name = refl
