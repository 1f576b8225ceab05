-- ===== src/Tracer/Starts.antt =====
-- How a trace starts.
use mathlib.Core.Logic.{◌↔◌}
use optrace.Prelude.{
  ℕ, zero, suc, ◌≡◌, refl, ap, ◌⊎◌, inl, inr, Bool, true, false, not, some, List, [], ◌∷◌, ◌++◌,
  Text, ◌==◌, replicate, if◌then◌else◌, bit_and, arith, Bool-cases, eq_of_==,
}
use optrace.Options.{Options}
use optrace.Seccomp.{filter}
use optrace.Tracer.{Status, stopped, signaled, exited_with, other, Wait, changed, interrupted}
use optrace.Tracer.Program.{
  ptrace_options, o_tracesysgood, o_tracefork, o_tracevfork, o_traceclone, o_traceexec, o_traceexit,
  o_traceseccomp, o_exitkill,
}
use optrace.Tracer.Setup.{
  Act, set_no_new_privs, set_seccomp, ptrace_trace_me, raise_sigtrap, execvp, Child, new_program,
  exit_2, run_tracee, await_child, ready, setup_tracer,
}

-- Whether an option of ptrace is among others.
abbrev pub asks_for : (option options : ℕ) → Bool
asks_for option options = not (bit_and options option == 0)

abbrev pub Asked : (forks jail filter : Bool) → ℕ → Type 0
Asked forks jail filter options =
    (asks_for o_tracesysgood options ≡ true)
    × (asks_for o_traceexec options ≡ true)
    × (asks_for o_traceexit options ≡ true)
    × (asks_for o_traceclone options ≡ forks)
    × (asks_for o_tracefork options ≡ forks)
    × (asks_for o_tracevfork options ≡ forks)
    × (asks_for o_exitkill options ≡ jail)
    × (asks_for o_traceseccomp options ≡ filter)

-- The options that `SetupTracer` asks for: system-call stops are always marked and execs and exits
-- reported; all kinds of new children are, if forks are followed; the children die with the tracer
-- if forks are jailed; and the stops of the filter are reported if there is one.
pub ptrace_options-Asked :
    (opts : Options) (use_sec_comp : Bool)
    → Asked opts.follow_forks opts.jail_forks use_sec_comp (ptrace_options opts use_sec_comp)
unfolding ptrace_options
ptrace_options-Asked opts use_sec_comp =
    on opts.follow_forks opts.jail_forks use_sec_comp refl refl refl
  where
    on :
        (forks jail filter : Bool)
        → opts.follow_forks ≡ forks
        → opts.jail_forks ≡ jail
        → use_sec_comp ≡ filter
        → Asked opts.follow_forks opts.jail_forks use_sec_comp (ptrace_options opts use_sec_comp)
    on true true true ef ej es = rw (ef, ej, es) (refl, refl, refl, refl, refl, refl, refl, refl)
    on true true false ef ej es = rw (ef, ej, es) (refl, refl, refl, refl, refl, refl, refl, refl)
    on true false true ef ej es = rw (ef, ej, es) (refl, refl, refl, refl, refl, refl, refl, refl)
    on true false false ef ej es = rw (ef, ej, es) (refl, refl, refl, refl, refl, refl, refl, refl)
    on false true true ef ej es = rw (ef, ej, es) (refl, refl, refl, refl, refl, refl, refl, refl)
    on false true false ef ej es = rw (ef, ej, es) (refl, refl, refl, refl, refl, refl, refl, refl)
    on false false true ef ej es = rw (ef, ej, es) (refl, refl, refl, refl, refl, refl, refl, refl)
    on false false false ef ej es = rw (ef, ej, es) (refl, refl, refl, refl, refl, refl, refl, refl)

-- The calls of the child in their order, each with its answer.
abbrev pub steps : Child → List Text → (use_sec_comp : Bool) → List (Act × Bool)
steps child args use_sec_comp =
    (if use_sec_comp
      then (set_no_new_privs, child.no_new_privs) ∷ (set_seccomp filter, child.filter_set) ∷ []
      else [])
    ++ ((ptrace_trace_me, child.traced)
        ∷ (raise_sigtrap, child.raised)
        ∷ (execvp args, child.executed)
        ∷ [])

-- What is done of them where a failure is the end, and whether none of them has failed.
abbrev pub up_to_failure : List (Act × Bool) → List Act
up_to_failure [] = []
up_to_failure ((a, true) ∷ rest) = a ∷ up_to_failure rest
up_to_failure ((a, false) ∷ rest) = a ∷ []

abbrev pub none_fails : List (Act × Bool) → Bool
none_fails [] = true
none_fails ((a, true) ∷ rest) = none_fails rest
none_fails ((a, false) ∷ rest) = false

-- The child after the fork, whatever the system answers: with seccomp, it gives up new privileges and
-- sets the filter; then it asks to be traced, stops itself and starts the program, which runs if none of
-- these calls has failed. At the first one that fails it ends with status 2 and does none of the rest.
pub run_tracee-up_to_failure :
    (child : Child) (args : List Text) (use_sec_comp : Bool)
    → run_tracee child (some args) use_sec_comp ≡ (
      up_to_failure (steps child args use_sec_comp),
      if none_fails (steps child args use_sec_comp) then new_program else exit_2,
    )
unfolding run_tracee
run_tracee-up_to_failure child args use_sec_comp =
    on child.no_new_privs child.filter_set child.traced child.raised child.executed use_sec_comp
  where
    on :
        (a b c d e f : Bool)
        → let answers : Child = record {
          no_new_privs = a;
          filter_set = b;
          traced = c;
          raised = d;
          executed = e;
        } in
          run_tracee answers (some args) f ≡ (
            up_to_failure (steps answers args f),
            if none_fails (steps answers args f) then new_program else exit_2,
          )
    on a b false d e false = refl
    on a b true false e false = refl
    on a b true true false false = refl
    on a b true true true false = refl
    on false b c d e true = refl
    on true false c d e true = refl
    on true true false d e true = refl
    on true true true false e true = refl
    on true true true true false true = refl
    on true true true true true true = refl

await_child-interrupted :
    (k : ℕ) (ws : List Wait) (pid : ℕ) (status : Status)
    → await_child (replicate k interrupted ++ (changed pid status ∷ ws)) ≡ some (changed pid status)
unfolding await_child
await_child-interrupted zero ws pid status = refl
await_child-interrupted (suc k) ws pid status = await_child-interrupted k ws pid status

abbrev pub IsStop : Status → Type 0
IsStop (stopped sig event) = Unit
IsStop (signaled sig core) = ⊥
IsStop (exited_with code) = ⊥
IsStop other = ⊥

-- `SetupTracer` is interrupted any number of times until the child has changed its state, and then goes on if
-- the child has stopped, whatever the signal, or if it has ended with the exit code 5, the number of
-- SIGTRAP; if its options are accepted.
pub setup_tracer-await_child :
    (k : ℕ) (ws : List Wait) (pid : ℕ) (status : Status) (opts : Options) (use_sec_comp : Bool)
    → (await_child (replicate k interrupted ++ (changed pid status ∷ ws))
        ≡ some (changed pid status))
      × ((setup_tracer (changed pid status) true opts use_sec_comp
            ≡ ready (ptrace_options opts use_sec_comp))
          ↔ (IsStop status ⊎ (status ≡ exited_with 5)))
unfolding setup_tracer
setup_tracer-await_child k ws pid status opts use_sec_comp =
    (await_child-interrupted k ws pid status, on status)
  where
    on :
        (s : Status)
        → (setup_tracer (changed pid s) true opts use_sec_comp
            ≡ ready (ptrace_options opts use_sec_comp))
          ↔ (IsStop s ⊎ (s ≡ exited_with 5))
    on (stopped sig event) = (λ e. inl tt, λ e. refl)
    on (signaled sig core) = (
      λ e. absurd (ground arith),
      λ e. elim e [ inl n ↦ absurd n | inr n ↦ absurd (ground arith) ],
    )
    on (exited_with code) = (
      λ e. elim (Bool-cases (code == 5)) [
        | inl five ↦ inr (ap exited_with (eq_of_== code 5 five))
        | inr n ↦ absurd (ground arith)
      ],
      λ e. elim e [
        | inl n ↦ absurd n
        | inr five ↦ ap (λ s. setup_tracer (changed pid s) true opts use_sec_comp) five
      ],
    )
    on other = (
      λ e. absurd (ground arith),
      λ e. elim e [ inl n ↦ absurd n | inr n ↦ absurd (ground arith) ],
    )
