-- ===== src/Context/Exits.antt =====
-- `SyscallExit` as a whole, on a live process.
use optrace.Prelude.{ℕ, ◌<◌, ◌^◌}
use optrace.Host.{Host}
use optrace.FileState.{enroll, enroll_no_shift, set_curr_pos, set_flags}
use optrace.Abi.{Registers}
use optrace.Context.{Context, Cmd, Outcome, done, and_then, skip, ◌>>=◌}
use optrace.Context.Descriptors.{op_dup, op_dup2, op_dup3}
use optrace.Context.Syscalls.{
  Action, write_change_offset, write_no_offset_change, open_write_file, open_file, close, dup, dup2,
  dup3, resize, seek, set_flag, nothing, perform, decode, syscall_exit,
}
use optrace.Context.Live.{IsLive, Ends, Ends-and_then}
use optrace.Context.Safety.{
  StaysLive, Shares, Unreadable, on_open_file-Ends, op_close-Ends, op_dup2-Ends, op_dup3-Ends,
  op_open_write_file-Ends, op_open_file-Ends,
}

-- The descriptor that an action is to fill, 0 if there is none.
abbrev pub new_fd : Action → ℕ
new_fd (open_write_file fd flags) = fd
new_fd (open_file fd flags) = fd
new_fd (dup fd newfd) = newfd
new_fd (dup2 oldfd newfd) = newfd
new_fd (dup3 oldfd newfd flags) = newfd
new_fd (write_change_offset fd n) = 0
new_fd (write_no_offset_change fd n offset) = 0
new_fd (close fd) = 0
new_fd (resize fd size) = 0
new_fd (seek fd pos) = 0
new_fd (set_flag fd flags) = 0
new_fd nothing = 0

-- It is an `int`, so that `fds.resize(newfd + 1)` neither wraps nor throws.
abbrev pub HasIntFd : Registers → Type 0
HasIntFd r = new_fd (decode r) < 2 ^ 31

module _ (h : Host) (pid a : ℕ) (c : Context) (live : IsLive pid a c) where
  dup-Ends :
      (oldfd newfd : ℕ)
      → Ends (Unreadable h) (StaysLive pid a) (and_then (op_dup2 pid oldfd newfd c) (λ _. skip))
  unfolding Shares
  dup-Ends oldfd newfd =
      Ends-and_then (Unreadable h) (Shares h pid a newfd) (StaysLive pid a)
        (op_dup2 pid oldfd newfd c) _ (op_dup2-Ends h pid a oldfd newfd c live) (λ _ d next. next.0)

  perform-Ends : (act : Action) → Ends (Unreadable h) (StaysLive pid a) (perform h pid act c)
  unfolding perform op_dup optrace.Context.Descriptors.op_write_change_offset
      optrace.Context.Descriptors.op_write_no_offset_change optrace.Context.Descriptors.op_resize
      optrace.Context.Descriptors.op_seek optrace.Context.Descriptors.op_set_flag
  perform-Ends (write_change_offset fd n) = on_open_file-Ends h pid a fd (enroll n) c live
  perform-Ends (write_no_offset_change fd n offset) =
      on_open_file-Ends h pid a fd (enroll_no_shift n offset) c live
  perform-Ends (open_write_file fd flags) = op_open_write_file-Ends h pid a fd flags c live
  perform-Ends (open_file fd flags) = op_open_file-Ends h pid a fd flags c live
  perform-Ends (close fd) = op_close-Ends h pid a fd c live
  perform-Ends (dup fd newfd) = dup-Ends fd newfd
  perform-Ends (dup2 oldfd newfd) = dup-Ends oldfd newfd
  perform-Ends (dup3 oldfd newfd flags) =
      Ends-and_then (Unreadable h) (StaysLive pid a) (StaysLive pid a)
        (op_dup3 pid oldfd newfd flags c) _ (op_dup3-Ends h pid a oldfd newfd flags c live)
        (λ _ d next. next)
  perform-Ends (resize fd size) = on_open_file-Ends h pid a fd (enroll_no_shift size 0) c live
  perform-Ends (seek fd pos) = on_open_file-Ends h pid a fd (set_curr_pos pos) c live
  perform-Ends (set_flag fd flags) = on_open_file-Ends h pid a fd (set_flags flags) c live
  perform-Ends nothing = live

  -- On the vectors of the model, which grow to any size.
  pub syscall_exit-Ends_any :
      (r : Registers) → Ends (Unreadable h) (StaysLive pid a) (syscall_exit h pid r c)
  unfolding syscall_exit
  syscall_exit-Ends_any r = perform-Ends (decode r)

  -- Whatever system call a thread has finished, if its data and the leader of its group are known in a
  -- well-formed context whose report limit is not 0, and if a new descriptor is an `int`, as the kernel
  -- has it: `SyscallExit` fails no assert and reads no missing object, and it returns with these facts
  -- kept, unless the system has a link that cannot be read, where it may end the tracer with status 2.
  pub syscall_exit-Ends :
      (r : Registers) → HasIntFd r → Ends (Unreadable h) (StaysLive pid a) (syscall_exit h pid r c)
  syscall_exit-Ends r small = syscall_exit-Ends_any r
