-- ===== src/Tracer.antt =====
-- src/optrace.cpp: the state of the loop of `RunTracer`, what `wait3` and ptrace answer, and its calls of
-- the context and of src/ptrace.cpp. The blocks of the loop are in Rounds.
pub mod Rounds
pub mod Verdicts
pub mod Protocol
pub mod Threads
pub mod Children
pub mod Events
pub mod Program
pub mod Setup
pub mod Starts
pub mod Loop
pub mod Runs
pub mod Leads
pub mod Exits
pub mod Codes
pub mod Stops
pub mod Births
pub mod Orders
pub mod Interleaved
pub mod Totals
pub mod Whole
pub mod Endings
use optrace.Prelude.{
  ℕ, ◌+◌, ◌*◌, ◌-◌, ◌%◌, ◌^◌, Bool, true, false, not, ◌&&◌, ◌||◌, Option, none, some, List, [], ◌∷◌,
  ◌==◌, if◌then◌else◌, bit_and,
}
use optrace.Prelude.Int.{ℤ, pos, negsuc, is_negative, pos_part}
use optrace.Prelude.Maps.{find, insert, erase, has_key}
use optrace.Host.{Host}
use optrace.Abi.{
  Registers, sigkill, syscall_trap, event_fork, event_vfork, event_clone, event_exec, event_seccomp,
  clone_thread, esrch, enosys,
}
use optrace.Context.{Context, Outcome, done, aborted, exited, undefined}
use optrace.Context.Lifecycle.{
  register_process, register_thread, register_exec, register_core_dump, vanish_process,
}
use optrace.Context.Syscalls.{syscall_exit}

-- A status of `wait3`, as the macros of sys/wait.h take it apart: a stop with its signal and the
-- number in the upper half, a death by a signal and whether it left a core, an exit, or none of them.
pub data Status : Type 0 where
  stopped : (sig event : ℕ) → Status
  signaled : (sig : ℕ) (core : Bool) → Status
  exited_with : (code : ℕ) → Status
  other : Status

-- What `wait3` returns: a child with its status, or -1 with `EINTR`, `ECHILD` or another error.
pub data Wait : Type 0 where
  changed : (pid : ℕ) → Status → Wait
  interrupted : Wait
  no_child : Wait
  wait_failed : Wait

-- The requests to ptrace: `PTRACE_SYSCALL`, `PTRACE_CONT`, `PTRACE_GETEVENTMSG`, `PTRACE_PEEKUSER` and
-- `PTRACE_GETREGS`.
pub data Request : Type 0 where
  restart_syscall : (pid sig : ℕ) → Request
  continue_syscall : (pid sig : ℕ) → Request
  get_event_msg : (pid : ℕ) → Request
  peek_user : (pid offset : ℕ) → Request
  get_regs : (pid : ℕ) → Request

-- The answer to a request: its value, or -1 and an error number.
pub data Reply : Type 0 where
  returned : ℤ → Reply
  failed : (errno : ℕ) → Reply

-- What the system answers in one round of the loop.
pub record Round : Type 0 where
  pub wait : Wait
  pub reply : Request → Reply
  pub registers : ℕ → Registers
  pub host : Host

-- The arguments of `RunTracer`, and whether `secCompVer` is `SEC_COMP_V2`.
pub record Config : Type 0 where
  pub tracee_pid : ℕ
  pub follow_forks : Bool
  pub wait_daemons : Bool
  pub use_sec_comp : Bool
  pub sec_comp_v2 : Bool

-- The variables of `RunTracer`. An `int` of the system calls is a 32-bit word, and `traceeExitCode` is
-- `none` while it is `EXIT_CODE_UNKNOWN`. `resumed` are the requests that have let a thread go on, the
-- last one first.
pub record Tracer : Type 0 where
  pub context : Context
  pub suspended_threads : List (ℕ × Status)
  pub syscall_state_map : List (ℕ × ℕ)
  pub tracee_exit_code : Option ℕ
  pub resumed : List Request

-- `SYSCALL_UNDEFINED`, -1.
abbrev pub syscall_undefined : ℕ
syscall_undefined = 0xffffffff

-- The -2 of `GetSyscallNumber`.
abbrev pub no_entry : ℕ
no_entry = 0xfffffffe

-- How a round ends: the loop goes on, `RunTracer` returns, an `assert` fails, the tracer exits, or the
-- C++ code leaves what the language defines.
pub data Verdict : Type 0 where
  goes_on : Tracer → Verdict
  returns : ℤ → Tracer → Verdict
  aborts : Verdict
  exits : ℕ → Verdict
  breaks : Verdict

-- A call of a method of the context.
unfoldable pub calls : Tracer → Outcome (Unit {0}) → (Tracer → Verdict) → Verdict
calls s (done x c) k = k (record s { context = c })
calls s aborted k = aborts
calls s (exited n) k = exits n
calls s undefined k = breaks

-- `PtraceSafeCall`: -1 if there is no such process, and any other error ends the tracer with status 2.
unfoldable pub ptrace_safe_call : Reply → (ℤ → Verdict) → Verdict
ptrace_safe_call (returned v) k = k v
ptrace_safe_call (failed errno) k = if errno == esrch then k (negsuc 0) else exits 2

-- `PtraceRestartSyscall` and `PtraceContinueSyscall`; their result is not looked at.
unfoldable pub resume : Round → Request → Tracer → (Tracer → Verdict) → Verdict
unfolding ptrace_safe_call
resume round req s k =
    ptrace_safe_call (round.reply req) (λ v. k (record s { resumed = req ∷ s.resumed }))

-- A value that is -1 for a process that is gone: it is restarted, and the loop goes on.
unfoldable pub ask : Round → ℕ → Request → Tracer → (ℕ → Verdict) → Verdict
unfolding ptrace_safe_call resume
ask round pid req s k =
    ptrace_safe_call (round.reply req)
      λ v. if is_negative v then resume round (restart_syscall pid 0) s goes_on else k (pos_part v)
