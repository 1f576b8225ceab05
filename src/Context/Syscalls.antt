-- ===== src/Context/Syscalls.antt =====
-- `SyscallExit`: from the registers of a finished system call to the operation on the context.
use optrace.Prelude.{ℕ, ◌+◌, Bool, ◌||◌, ◌&&◌, ◌==◌, if◌then◌else◌, word, int_nonneg, ssize_pos}
use optrace.Abi.{
  Registers, sys_write, sys_open, sys_close, sys_lseek, sys_pwrite64, sys_writev, sys_dup, sys_dup2,
  sys_fcntl, sys_ftruncate, sys_creat, sys_openat, sys_fallocate, sys_dup3, sys_pwritev,
  sys_pwritev2, f_dupfd, f_setfd, f_setfl, f_dupfd_cloexec,
}
use optrace.Host.{Host}
use optrace.FileState.{o_cloexec}
use optrace.Context.{Cmd, skip, ◌>>=◌}
use optrace.Context.Descriptors.{
  op_write_change_offset, op_write_no_offset_change, op_open_write_file, op_open_file, op_close,
  op_dup, op_dup2, op_dup3, op_resize, op_seek, op_set_flag,
}

abbrev ignore : Cmd Bool → Cmd (Unit {0})
ignore m = m >>= λ _. skip

-- What the cases of the `switch` do.
pub data Action : Type 0 where
  write_change_offset : ℕ → ℕ → Action
  write_no_offset_change : ℕ → ℕ → ℕ → Action
  open_write_file : ℕ → ℕ → Action
  open_file : ℕ → ℕ → Action
  close : ℕ → Action
  dup : ℕ → ℕ → Action
  dup2 : ℕ → ℕ → Action
  dup3 : ℕ → ℕ → ℕ → Action
  resize : ℕ → ℕ → Action
  seek : ℕ → ℕ → Action
  set_flag : ℕ → ℕ → Action
  nothing : Action

unfoldable pub perform : Host → ℕ → Action → Cmd (Unit {0})
perform h pid (write_change_offset fd n) = op_write_change_offset pid fd n
perform h pid (write_no_offset_change fd n offset) = op_write_no_offset_change pid fd n offset
perform h pid (open_write_file fd flags) = op_open_write_file h pid fd flags
perform h pid (open_file fd flags) = op_open_file h pid fd flags
perform h pid (close fd) = op_close pid fd
perform h pid (dup fd newfd) = ignore (op_dup pid fd newfd)
perform h pid (dup2 oldfd newfd) = ignore (op_dup2 pid oldfd newfd)
perform h pid (dup3 oldfd newfd flags) = ignore (op_dup3 pid oldfd newfd flags)
perform h pid (resize fd size) = op_resize pid fd size
perform h pid (seek fd pos) = op_seek pid fd pos
perform h pid (set_flag fd flags) = op_set_flag pid fd flags
perform h pid nothing = skip

abbrev when : Bool → Action → Action
when b act = if b then act else nothing

-- The inner `switch` of `SYS_fcntl`, on the command.
unfoldable pub fcntl_action : Registers → Action
fcntl_action r =
    if r.rsi == f_dupfd
    then dup r.rdi r.rax
    else if r.rsi == f_dupfd_cloexec
    then dup3 r.rdi r.rax o_cloexec
    else when ((r.rsi == f_setfl) || (r.rsi == f_setfd)) (set_flag r.rdi r.rdx)

-- The `switch` of `SyscallExit` on x86_64: the number is in `orig_rax`, the result in `rax`, and the
-- arguments are in `rdi`, `rsi`, `rdx` and `r10`.
unfoldable pub decode : Registers → Action
unfolding fcntl_action
decode r =
    if (r.orig_rax == sys_write) || (r.orig_rax == sys_writev)
    then when (ssize_pos r.rax) (write_change_offset r.rdi r.rax)
    else if (r.orig_rax == sys_pwritev)
        || (r.orig_rax == sys_pwrite64)
        || (r.orig_rax == sys_pwritev2)
    then when (ssize_pos r.rax) (write_no_offset_change r.rdi r.rax r.r10)
    else if r.orig_rax == sys_creat
    then when (int_nonneg r.rax) (open_write_file r.rax r.rsi)
    else if r.orig_rax == sys_open
    then when (int_nonneg r.rax) (open_file r.rax r.rsi)
    else if r.orig_rax == sys_openat
    then when (int_nonneg r.rax) (open_file r.rax r.rdx)
    else if r.orig_rax == sys_close
    then close r.rdi
    else if r.orig_rax == sys_fcntl
    then when (int_nonneg r.rax) (fcntl_action r)
    else if r.orig_rax == sys_dup
    then when (int_nonneg r.rax) (dup r.rdi r.rax)
    else if r.orig_rax == sys_dup2
    then when (int_nonneg r.rax) (dup2 r.rdi r.rsi)
    else if r.orig_rax == sys_dup3
    then when (int_nonneg r.rax) (dup3 r.rdi r.rsi r.rdx)
    else if r.orig_rax == sys_fallocate
    then when (int_nonneg r.rax) (resize r.rdi (word (r.rdx + r.r10)))
    else if r.orig_rax == sys_ftruncate
    then when (int_nonneg r.rax) (resize r.rdi r.rsi)
    else when ((r.orig_rax == sys_lseek) && int_nonneg r.rax) (seek r.rdi r.rax)

unfoldable pub syscall_exit : Host → ℕ → Registers → Cmd (Unit {0})
unfolding perform decode
syscall_exit h pid r = perform h pid (decode r)
