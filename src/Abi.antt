-- ===== src/Abi.antt =====
-- The numbers of the x86_64 Linux system-call interface that src/context.cpp, src/bpf_program.cpp and
-- src/syscall_x86_64.h name, and the registers that src/syscall.h reads.
use optrace.Prelude.{ℕ}

abbrev pub sys_write : ℕ
sys_write = 1

abbrev pub sys_open : ℕ
sys_open = 2

abbrev pub sys_close : ℕ
sys_close = 3

abbrev pub sys_lseek : ℕ
sys_lseek = 8

abbrev pub sys_pwrite64 : ℕ
sys_pwrite64 = 18

abbrev pub sys_writev : ℕ
sys_writev = 20

abbrev pub sys_dup : ℕ
sys_dup = 32

abbrev pub sys_dup2 : ℕ
sys_dup2 = 33

abbrev pub sys_fcntl : ℕ
sys_fcntl = 72

abbrev pub sys_ftruncate : ℕ
sys_ftruncate = 77

abbrev pub sys_creat : ℕ
sys_creat = 85

abbrev pub sys_openat : ℕ
sys_openat = 257

abbrev pub sys_fallocate : ℕ
sys_fallocate = 285

abbrev pub sys_dup3 : ℕ
sys_dup3 = 292

abbrev pub sys_pwritev : ℕ
sys_pwritev = 296

abbrev pub sys_pwritev2 : ℕ
sys_pwritev2 = 328

abbrev pub f_dupfd : ℕ
f_dupfd = 0

abbrev pub f_setfd : ℕ
f_setfd = 2

abbrev pub f_setfl : ℕ
f_setfl = 4

abbrev pub f_dupfd_cloexec : ℕ
f_dupfd_cloexec = 1030

-- `FD_CLOEXEC`, the argument of `F_SETFD`.
abbrev pub fd_cloexec : ℕ
fd_cloexec = 1

-- `user_regs_struct`, the registers that the macros of src/syscall.h name.
pub record Registers : Type 0 where
  pub orig_rax : ℕ
  pub rax : ℕ
  pub rdi : ℕ
  pub rsi : ℕ
  pub rdx : ℕ
  pub r10 : ℕ

-- `SIGKILL`, and `SIGTRAP | 0x80`, the signal of a system-call stop.
abbrev pub sigkill : ℕ
sigkill = 9

abbrev pub syscall_trap : ℕ
syscall_trap = 0x85

-- The events of ptrace that `RunTracer` names.
abbrev pub event_fork : ℕ
event_fork = 1

abbrev pub event_vfork : ℕ
event_vfork = 2

abbrev pub event_clone : ℕ
event_clone = 3

abbrev pub event_exec : ℕ
event_exec = 4

abbrev pub event_seccomp : ℕ
event_seccomp = 7

abbrev pub clone_thread : ℕ
clone_thread = 0x10000

abbrev pub esrch : ℕ
esrch = 3

abbrev pub enosys : ℕ
enosys = 38
