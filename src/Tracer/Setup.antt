-- ===== src/Tracer/Setup.antt =====
-- The start of a trace in src/optrace.cpp: `RunTracee`, `SetupTracer` and the forwarding of signals.
use optrace.Prelude.{
  ℕ, Bool, true, false, not, ◌&&◌, Option, none, some, List, [], ◌∷◌, Text, ◌==◌, if◌then◌else◌,
}
use optrace.Prelude.Int.{ℤ, pos}
use optrace.Options.{Options}
use optrace.Seccomp.{Instr, filter}
use optrace.Tracer.{
  Status, stopped, signaled, exited_with, other, Wait, changed, interrupted, no_child, wait_failed,
}
use optrace.Tracer.Program.{ptrace_options}

-- What the child does after the fork.
pub data Act : Type 0 where
  set_no_new_privs : Act
  set_seccomp : List Instr → Act
  ptrace_trace_me : Act
  raise_sigtrap : Act
  execvp : List Text → Act

-- The answers to it: whether each of them succeeds. A successful `execvp` does not return.
pub record Child : Type 0 where
  pub no_new_privs : Bool
  pub filter_set : Bool
  pub traced : Bool
  pub raised : Bool
  pub executed : Bool

-- How the child leaves `RunTracee`: in the new program, by a return, or with status 2.
pub data Left : Type 0 where
  new_program : Left
  returned : Left
  exit_2 : Left

abbrev first_act : (succeeds : Bool) → Act → List Act × Left → List Act × Left
first_act true a rest = (a ∷ rest.0, rest.1)
first_act false a rest = (a ∷ [], exit_2)

-- The two calls of `prctl` at the end of `InstallBpfProgram`.
unfoldable pub install_bpf_program : Child → List Act × Left → List Act × Left
install_bpf_program child rest =
    first_act child.no_new_privs set_no_new_privs
      (first_act child.filter_set (set_seccomp filter) rest)

-- `PtraceTraceMe`.
unfoldable pub request_tracing : Child → List Act × Left → List Act × Left
request_tracing child rest = first_act child.traced ptrace_trace_me rest

-- `SetupTracee`.
unfoldable pub setup_tracee : Child → (use_sec_comp : Bool) → List Act × Left → List Act × Left
unfolding install_bpf_program request_tracing
setup_tracee child use_sec_comp rest =
    let traced = request_tracing child (first_act child.raised raise_sigtrap rest) in
    if use_sec_comp then install_bpf_program child traced else traced

-- `RunTracee`.
unfoldable pub run_tracee :
    Child → (argv : Option (List Text)) → (use_sec_comp : Bool) → List Act × Left
unfolding setup_tracee
run_tracee child argv use_sec_comp = setup_tracee child use_sec_comp (elim argv [
  | none ↦ ([], returned)
  | some args ↦ (execvp args ∷ [], if child.executed then new_program else exit_2)
])

-- What `waitpid` of `SetupTracer` tells in the end; `none` while it is interrupted.
unfoldable pub await_child : List Wait → Option Wait
await_child [] = none
await_child (interrupted ∷ ws) = await_child ws
await_child (changed pid status ∷ ws) = some (changed pid status)
await_child (no_child ∷ ws) = some no_child
await_child (wait_failed ∷ ws) = some wait_failed

-- `WSTOPSIG`, the second byte of a status of any kind. A continued child has 0xff there.
abbrev pub wstopsig : Status → ℕ
wstopsig (stopped sig event) = sig
wstopsig (signaled sig core) = 0
wstopsig (exited_with code) = code
wstopsig other = 0xff

abbrev pub wifstopped : Status → Bool
wifstopped (stopped sig event) = true
wifstopped (signaled sig core) = false
wifstopped (exited_with code) = false
wifstopped other = false

-- How `SetupTracer` ends: with the options that it has set, or the tracer with status 2.
pub data Setup : Type 0 where
  ready : (ptrace_opts : ℕ) → Setup
  exits_2 : Setup

-- `PtraceSetOptions`.
unfoldable pub ptrace_set_options : (options_set : Bool) → (ptrace_opts : ℕ) → Setup
ptrace_set_options options_set ptrace_opts = if options_set then ready ptrace_opts else exits_2

-- `SetupTracer`, for what `waitpid` has told.
unfoldable pub setup_tracer : Wait → (options_set : Bool) → Options → (use_sec_comp : Bool) → Setup
unfolding ptrace_options ptrace_set_options
setup_tracer (changed pid status) options_set opts use_sec_comp =
    if not (wifstopped status) && not (wstopsig status == 5)
    then exits_2
    else ptrace_set_options options_set (ptrace_options opts use_sec_comp)
setup_tracer interrupted options_set opts use_sec_comp = exits_2
setup_tracer no_child options_set opts use_sec_comp = exits_2
setup_tracer wait_failed options_set opts use_sec_comp = exits_2

-- SIGHUP, SIGINT, SIGQUIT, SIGILL, SIGABRT, SIGFPE, SIGSEGV, SIGPIPE, SIGALRM, SIGTERM, SIGUSR1 and SIGUSR2.
abbrev pub all_signals : List ℤ
all_signals =
    pos 1
    ∷ pos 2
    ∷ pos 3
    ∷ pos 4
    ∷ pos 6
    ∷ pos 8
    ∷ pos 11
    ∷ pos 13
    ∷ pos 14
    ∷ pos 15
    ∷ pos 10
    ∷ pos 12
    ∷ []

-- The signals that `TraceProgram` forwards to the tracee.
unfoldable pub forwarded_signals : Options → List ℤ
forwarded_signals opts = if opts.forward_all_signals then all_signals else opts.forwarding_signals

-- `SetupSignalForwarding`: the signals that have a handler, and whether all have one; the `assert`
-- fails at the first one that cannot be handled.
unfoldable pub setup_signal_forwarding : (handled : ℤ → Bool) → List ℤ → List ℤ × Bool
setup_signal_forwarding handled [] = ([], true)
setup_signal_forwarding handled (s ∷ ss) =
    let rest = setup_signal_forwarding handled ss in
    if handled s then (s ∷ rest.0, rest.1) else ([], false)

-- `ForwardSignal`, the handler: the signals that it sends, to which process. `tracee_pid` is `TraceePid`,
-- 0 before the fork.
unfoldable pub forward_signal : (tracee_pid : ℕ) → (sig : ℤ) → List (ℕ × ℤ)
forward_signal tracee_pid sig = if tracee_pid == 0 then [] else (tracee_pid, sig) ∷ []
