-- ===== src/Seccomp.antt =====
-- src/bpf_program.cpp: the seccomp filter, as the program that `InstallBpfProgram` puts together on
-- x86_64, and the classic BPF machine that runs it on each system call.
pub mod Blocks
pub mod Coverage
pub mod Ends
use optrace.Prelude.{
  ℕ, zero, suc, ◌+◌, ◌-◌, ◌*◌, ◌/◌, ◌%◌, ◌^◌, Bool, true, false, Option, none, some, List, [], ◌∷◌,
  ◌++◌, ◌==◌, if◌then◌else◌, bit_and,
}
use optrace.Abi.{
  Registers, sys_write, sys_open, sys_close, sys_lseek, sys_pwrite64, sys_writev, sys_dup, sys_dup2,
  sys_fcntl, sys_ftruncate, sys_creat, sys_openat, sys_fallocate, sys_dup3, sys_pwritev,
  sys_pwritev2, f_dupfd, f_setfd, f_setfl, f_dupfd_cloexec,
}
use optrace.Context.Descriptors.{o_wronly, o_rdwr}

-- `struct seccomp_data`, as far as the filter reads it.
pub record SeccompData : Type 0 where
  pub nr : ℕ
  pub args : ℕ → ℕ

-- What the kernel hands the filter for a system call: the number as an `int`, and the arguments.
abbrev pub argument : Registers → ℕ → ℕ
argument r zero = r.rdi
argument r (suc zero) = r.rsi
argument r (suc (suc zero)) = r.rdx
argument r (suc (suc (suc n))) = r.r10

abbrev pub data_of : Registers → SeccompData
data_of r = record { nr = r.orig_rax % 2 ^ 32; args = argument r }

-- `struct sock_filter`: a load of the 32-bit word at an offset, the two jumps that the filter uses,
-- with their distances if the test holds and if it fails, and the return.
pub data Instr : Type 0 where
  ld_abs : ℕ → Instr
  jeq : (k jt jf : ℕ) → Instr
  jset : (k jt jf : ℕ) → Instr
  ret : ℕ → Instr

abbrev pub seccomp_ret_allow : ℕ
seccomp_ret_allow = 0x7fff0000

abbrev pub seccomp_ret_trace : ℕ
seccomp_ret_trace = 0x7ff00000

-- `offsetof(struct seccomp_data, nr)` and `offsetof(struct seccomp_data, args[i])`.
abbrev pub offset_nr : ℕ
offset_nr = 0

abbrev pub offset_arg : ℕ → ℕ
offset_arg i = 16 + 8 * i

-- The word at an offset; that of an argument is its lower half on a little-endian machine.
abbrev pub load : SeccompData → ℕ → ℕ
load d offset = if offset == offset_nr then d.nr else d.args ((offset - 16) / 8) % 2 ^ 32

-- The machine, with `skip` instructions to pass over. `none` is a run off the end of the program.
unfoldable pub run : SeccompData → (acc skip : ℕ) → List Instr → Option ℕ
run d acc skip [] = none
run d acc (suc skip) (i ∷ is) = run d acc skip is
run d acc zero (ld_abs offset ∷ is) = run d (load d offset) zero is
run d acc zero (jeq k jt jf ∷ is) = run d acc (if acc == k then jt else jf) is
run d acc zero (jset k jt jf ∷ is) = run d acc (if bit_and acc k == 0 then jf else jt) is
run d acc zero (ret k ∷ is) = some k

unfoldable pub open_block : List Instr
open_block =
    jeq sys_open 0 4
    ∷ ld_abs (offset_arg 1)
    ∷ jset o_wronly 1 0
    ∷ jset o_rdwr 0 1
    ∷ ret seccomp_ret_trace
    ∷ []

unfoldable pub openat_block : List Instr
openat_block =
    jeq sys_openat 0 4
    ∷ ld_abs (offset_arg 2)
    ∷ jset o_wronly 1 0
    ∷ jset o_rdwr 0 1
    ∷ ret seccomp_ret_trace
    ∷ []

unfoldable pub fcntl_block : List Instr
fcntl_block =
    jeq sys_fcntl 0 6
    ∷ ld_abs (offset_arg 1)
    ∷ jset f_dupfd 3 0
    ∷ jset f_dupfd_cloexec 2 0
    ∷ jset f_setfl 1 0
    ∷ jset f_setfd 0 1
    ∷ ret seccomp_ret_trace
    ∷ []

abbrev pub tracing_syscalls : List ℕ
tracing_syscalls =
    sys_creat ∷ sys_dup2 ∷ sys_write ∷ sys_writev ∷ sys_pwritev ∷ sys_pwrite64 ∷ sys_pwritev2
    ∷ sys_close ∷ sys_dup ∷ sys_dup3 ∷ sys_fallocate ∷ sys_ftruncate ∷ sys_lseek ∷ []

-- The loop that appends two instructions for each number, and the last `push_back`.
unfoldable pub syscall_blocks : List ℕ → List Instr
syscall_blocks [] = ret seccomp_ret_allow ∷ []
syscall_blocks (nr ∷ nrs) = jeq nr 0 1 ∷ ret seccomp_ret_trace ∷ syscall_blocks nrs

unfoldable pub filter : List Instr
filter =
    ld_abs offset_nr
    ∷ (open_block ++ (openat_block ++ (fcntl_block ++ syscall_blocks tracing_syscalls)))

-- The filter's answer for a system call.
unfoldable pub verdict : SeccompData → Option ℕ
unfolding run filter
verdict d = run d 0 0 filter
