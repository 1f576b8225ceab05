-- ===== src/Samples/Starts.antt =====
-- The start of a trace.
use mathlib.Core.Logic.{◌↔◌}
use optrace.Prelude.{◌≡◌, true, false, some, [], ◌∷◌, text, ◌⊎◌}
use optrace.Seccomp.{filter}
use optrace.Tracer.{exited_with, changed, interrupted}
use optrace.Tracer.Program.{ptrace_options}
use optrace.Tracer.Setup.{
  Child, exit_2, set_no_new_privs, set_seccomp, ptrace_trace_me, run_tracee, await_child, ready,
  setup_tracer,
}
use optrace.Tracer.Starts.{
  Asked, IsStop, ptrace_options-Asked, run_tracee-up_to_failure, setup_tracer-await_child,
}
use optrace.Samples.Files.{options}

ptrace_options-Asked_example : Asked true true false (ptrace_options options false)
ptrace_options-Asked_example = ptrace_options-Asked options false

abbrev pub child : Child
child = record {
  no_new_privs = true;
  filter_set = true;
  traced = true;
  raised = true;
  executed = true;
}

-- The request to be traced is refused.
run_tracee-up_to_failure_example :
    run_tracee (record child { traced = false }) (some (text "ls" ∷ [])) true
    ≡ (set_no_new_privs ∷ set_seccomp filter ∷ ptrace_trace_me ∷ [], exit_2)
run_tracee-up_to_failure_example =
    run_tracee-up_to_failure (record child { traced = false }) (text "ls" ∷ []) true

setup_tracer-await_child_example :
    (await_child (interrupted ∷ interrupted ∷ changed 7 (exited_with 5) ∷ [])
      ≡ some (changed 7 (exited_with 5)))
    × ((setup_tracer (changed 7 (exited_with 5)) true options true
          ≡ ready (ptrace_options options true))
        ↔ (IsStop (exited_with 5) ⊎ (exited_with 5 ≡ exited_with 5)))
setup_tracer-await_child_example = setup_tracer-await_child 2 [] 7 (exited_with 5) options true
