-- ===== src/Tracer/Whole.antt =====
-- `TraceProgram` of src/optrace.cpp as a whole, with the fork, and `main` of src/main.cpp, which calls it;
-- `KernelVerGreaterOrEqual` of src/utils.cpp.
use optrace.Prelude.{
  ℕ, Bool, true, false, not, Option, none, some, List, [], ◌∷◌, Text, text, if◌then◌else◌,
}
use optrace.Prelude.Int.{ℤ, is_negative}
use optrace.Host.{Host}
use optrace.Report.{Printer}
use optrace.Options.{Options, proceed, leave, main}
use optrace.Context.{Context, new_context, Outcome, done, aborted, exited, undefined}
use optrace.Context.Lifecycle.{register_tracee}
use optrace.Tracer.{Request, Reply, Round, Wait, Verdict, ptrace_safe_call}
use optrace.Tracer.Program.{first_request, config_of, trace_tracee, run_with, finish}
use optrace.Tracer.Setup.{
  Act, Child, Left, run_tracee, await_child, ready, exits_2, setup_tracer, forwarded_signals,
  setup_signal_forwarding,
}

-- What `fork` returns: -1, 0 in the child, or the id of the child.
pub data Fork : Type 0 where
  fork_failed : Fork
  in_child : Fork
  in_parent : (pid : ℕ) → Fork

-- What the system and libc answer to `TraceProgram`: the release that `uname` tells, `strverscmp`,
-- the two calls of `sigprocmask`, `fork`, the calls of the child, `waitpid`, `PTRACE_SETOPTIONS` and
-- `sigaction`; then what `RegisterTracee` sees, the first request and the rounds of `RunTracer`, and what the report is printed with.
pub record Machine : Type 0 where
  pub release : Option Text
  pub strverscmp : Text → Text → ℤ
  pub signals_blocked : Bool
  pub mask_restored : Bool
  pub fork : Fork
  pub child : Child
  pub child_waits : List Wait
  pub options_set : Bool
  pub handled : ℤ → Bool
  pub start : Host
  pub reply : Request → Reply
  pub rounds : List Round
  pub printer : Printer

-- How the process ends: the child leaves `RunTracee`, `TraceProgram` returns or calls `_exit`, or the
-- tracer exits, is aborted, or leaves what the language defines.
pub data Ending : Type 0 where
  child_left : List Act → Left → Ending
  returns : ℤ → Context → Ending
  calls_exit : ℤ → Context → Ending
  exits : ℕ → Ending
  aborts : Ending
  breaks : Ending

-- The comparison of `KernelVerGreaterOrEqual`.
abbrev pub at_least : (Text → Text → ℤ) → (release version : Text) → Bool
at_least strverscmp release version = not (is_negative (strverscmp release version))

-- `KernelVerGreaterOrEqual`; `none` if its `assert` fails.
unfoldable pub kernel_ver_greater_or_equal : Machine → Text → Option Bool
kernel_ver_greater_or_equal m version = elim m.release [
  | none ↦ none
  | some release ↦ some (at_least m.strverscmp release version)
]

-- `useSecComp`: the version is looked at only if the option is set.
unfoldable pub use_sec_comp : Machine → Options → Option Bool
unfolding kernel_ver_greater_or_equal
use_sec_comp m opts =
    if opts.use_sec_comp then kernel_ver_greater_or_equal m (text "3.5.0-0") else some false

-- The last statements of `TraceProgram`: `return rc` if there are arguments, and `_exit(rc)` if not.
unfoldable pub ending : (has_argv : Bool) → Outcome ℤ → Ending
ending has_argv (done rc c) = if has_argv then returns rc c else calls_exit rc c
ending has_argv aborted = aborts
ending has_argv (exited n) = exits n
ending has_argv undefined = breaks

abbrev pub is_given : Option (List Text) → Bool
is_given none = false
is_given (some args) = true

-- From `RegisterTracee` on. Where `uname` fails, `RunTracer` is aborted after its first request.
unfoldable pub registered_and_run :
    Machine → Options → (filtered : Bool) → (pid : ℕ) → Option (Outcome ℤ)
unfolding kernel_ver_greater_or_equal
registered_and_run m opts filtered pid = elim (kernel_ver_greater_or_equal m (text "4.8.0-0")) [
  | none ↦ run_with (register_tracee m.start pid (new_context opts)) λ c. finish m.printer (
      ptrace_safe_call (m.reply (first_request (config_of opts filtered false pid)))
        (λ v. Verdict.aborts))
  | some v2 ↦ trace_tracee m.printer m.start filtered v2 pid m.reply m.rounds opts
]

-- The parent after the fork; `none` while the rounds do not bring it to its end.
unfoldable pub trace_child :
    Machine → (argv : Option (List Text)) → Options → (filtered : Bool) → (pid : ℕ) → Option Ending
unfolding await_child setup_tracer forwarded_signals setup_signal_forwarding registered_and_run
    ending
trace_child m argv opts filtered pid = elim (await_child m.child_waits) [
  | none ↦ none
  | some w ↦ elim (setup_tracer w m.options_set opts filtered) [
    | exits_2 ↦ some (exits 2)
    | ready ptrace_opts ↦
        if not (setup_signal_forwarding m.handled (forwarded_signals opts)).1
        then some aborts
        else if not m.mask_restored
        then some aborts
        else elim (registered_and_run m opts filtered pid) [
          | none ↦ none
          | some o ↦ some (ending (is_given argv) o)
        ]
  ]
]

-- What follows the fork, in the child and in the parent.
unfoldable pub on_fork :
    Machine → (argv : Option (List Text)) → Options → (filtered : Bool) → Fork → Option Ending
unfolding run_tracee trace_child
on_fork m argv opts filtered fork_failed = some (exits 2)
on_fork m argv opts filtered in_child =
    if m.mask_restored
    then some (child_left (run_tracee m.child argv filtered).0 (run_tracee m.child argv filtered).1)
    else some aborts
on_fork m argv opts filtered (in_parent pid) = trace_child m argv opts filtered pid

-- `TraceProgram`; `TraceMe` has no arguments.
unfoldable pub trace_program : Machine → (argv : Option (List Text)) → Options → Option Ending
unfolding use_sec_comp on_fork
trace_program m argv opts = elim (use_sec_comp m opts) [
  | none ↦ some aborts
  | some filtered ↦
      if not m.signals_blocked then some aborts else on_fork m argv opts filtered m.fork
]

unfoldable pub trace_me : Machine → Options → Option Ending
unfolding trace_program
trace_me m opts = trace_program m none opts

-- `optind != argc`.
abbrev has_program : List Text → Bool
has_program [] = false
has_program (arg ∷ args) = true

-- `main`, with the call of `TraceProgram` at its end.
unfoldable pub run_main :
    Machine
    → (atoi : Text → ℤ) → List (ℕ × Text)
    → (program : List Text) → (can_write : Text → Bool → Bool) → Option Ending
unfolding trace_program main
run_main m atoi args program can_write = elim (main atoi args (has_program program) can_write) [
  | leave n ↦ some (exits n)
  | proceed opts ↦ trace_program m (some program) opts
]
