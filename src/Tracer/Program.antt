-- ===== src/Tracer/Program.antt =====
-- `RunTracer` from its start, `SetupTracer` as far as it chooses the options of ptrace, and
-- the end of `TraceProgram` in the tracer, from `RegisterTracee` to `PostProcess`.
use optrace.Prelude.{ℕ, Bool, ◌&&◌, Option, none, some, List, [], ◌∷◌, if◌then◌else◌, bit_or}
use optrace.Prelude.Int.{ℤ, is_zero}
use optrace.Host.{Host}
use optrace.Report.{Printer}
use optrace.Options.{Options}
use optrace.Context.{Context, new_context, Outcome, done, aborted, exited, undefined}
use optrace.Context.Lifecycle.{register_tracee, post_process}
use optrace.Tracer.{
  Reply, Request, restart_syscall, continue_syscall, Round, Config, Tracer, Verdict, goes_on,
  returns, aborts, exits, breaks, syscall_undefined, ptrace_safe_call,
}
use optrace.Tracer.Rounds.{run_rounds}

-- `PTRACE_O_TRACESYSGOOD`, `-TRACEFORK`, `-TRACEVFORK`, `-TRACECLONE`, `-TRACEEXEC`, `-TRACEEXIT`,
-- `-TRACESECCOMP` and `-EXITKILL`.
abbrev pub o_tracesysgood : ℕ
o_tracesysgood = 0x1

abbrev pub o_tracefork : ℕ
o_tracefork = 0x2

abbrev pub o_tracevfork : ℕ
o_tracevfork = 0x4

abbrev pub o_traceclone : ℕ
o_traceclone = 0x8

abbrev pub o_traceexec : ℕ
o_traceexec = 0x10

abbrev pub o_traceexit : ℕ
o_traceexit = 0x40

abbrev pub o_traceseccomp : ℕ
o_traceseccomp = 0x80

abbrev pub o_exitkill : ℕ
o_exitkill = 0x100000

-- The argument of `PtraceSetOptions` in `SetupTracer`.
unfoldable pub ptrace_options : Options → (use_sec_comp : Bool) → ℕ
ptrace_options opts use_sec_comp =
    let base = bit_or (bit_or o_tracesysgood o_traceexec) o_traceexit in
    let forks =
      if opts.follow_forks
      then bit_or base (bit_or (bit_or o_traceclone o_tracefork) o_tracevfork)
      else base in
    let jail = if opts.jail_forks then bit_or forks o_exitkill else forks in
    if use_sec_comp then bit_or jail o_traceseccomp else jail

-- The variables of `RunTracer` as the loop begins.
unfoldable pub start_tracer : Config → Context → Tracer
start_tracer cfg c = record {
  context = c;
  suspended_threads = [];
  syscall_state_map = (cfg.tracee_pid, syscall_undefined) ∷ [];
  tracee_exit_code = none;
  resumed = [];
}

-- The request that starts the tracee.
abbrev pub first_request : Config → Request
first_request cfg =
    if cfg.use_sec_comp then continue_syscall cfg.tracee_pid 0 else restart_syscall cfg.tracee_pid 0

-- `RunTracer`: the first request must succeed, or an `assert` fails.
unfoldable pub run_tracer : Config → (Request → Reply) → List Round → Context → Verdict
unfolding ptrace_safe_call start_tracer run_rounds
run_tracer cfg reply rounds c =
    ptrace_safe_call (reply (first_request cfg))
      λ v. if is_zero v then run_rounds cfg rounds (start_tracer cfg c) else aborts

-- `useSecComp` and the other arguments of `RunTracer` in `TraceProgram`; `kernel_3_5` and `kernel_4_8`
-- are the answers of `KernelVerGreaterOrEqual`.
unfoldable pub config_of : Options → (kernel_3_5 kernel_4_8 : Bool) → (pid : ℕ) → Config
config_of opts kernel_3_5 kernel_4_8 pid = record {
  tracee_pid = pid;
  follow_forks = opts.follow_forks;
  wait_daemons = opts.wait_daemons;
  use_sec_comp = opts.use_sec_comp && kernel_3_5;
  sec_comp_v2 = kernel_4_8;
}

-- What `TraceProgram` makes of the end of `RunTracer`; `none` while the rounds do not bring it to its
-- end.
unfoldable pub finish : Printer → Verdict → Option (Outcome ℤ)
unfolding post_process
finish p (goes_on s) = none
finish p (returns rc s) = some (post_process p rc s.context)
finish p aborts = some aborted
finish p (exits n) = some (exited n)
finish p breaks = some undefined

abbrev pub run_with : Outcome (Unit {0}) → (Context → Option (Outcome ℤ)) → Option (Outcome ℤ)
run_with (done x c) k = k c
run_with aborted k = some aborted
run_with (exited n) k = some (exited n)
run_with undefined k = some undefined

-- The end of `TraceProgram` in the tracer, from `RegisterTracee` on, after the fork that has made `pid`.
unfoldable pub trace_tracee :
    Printer
    → Host
    → (kernel_3_5 kernel_4_8 : Bool) → (pid : ℕ) → (Request → Reply)
    → List Round
    → Options
    → Option (Outcome ℤ)
unfolding run_tracer config_of finish
trace_tracee p start kernel_3_5 kernel_4_8 pid reply rounds opts =
    run_with (register_tracee start pid (new_context opts))
      λ c. finish p (run_tracer (config_of opts kernel_3_5 kernel_4_8 pid) reply rounds c)
