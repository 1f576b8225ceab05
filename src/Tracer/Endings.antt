-- ===== src/Tracer/Endings.antt =====
-- How `TraceProgram` ends.
use optrace.Prelude.{
  ℕ, ◌≡◌, refl, sym, subst, ◌⊎◌, inl, inr, Bool, true, false, not, Option, none, some, List, [],
  Text, text, if◌then◌else◌, Bool-cases,
}
use optrace.Prelude.Int.{ℤ, pos, negsuc, is_zero}
use optrace.Options.{Options}
use optrace.Context.{Context, new_context, Outcome, done, aborted, exited, undefined}
use optrace.Context.Lifecycle.{register_tracee}
use optrace.Context.Reachable.{HasFds}
use optrace.Tracer.{returned, Wait, Config}
use optrace.Tracer.Program.{start_tracer, first_request, config_of, trace_tracee}
use optrace.Tracer.Setup.{
  await_child, Setup, ready, exits_2, setup_tracer, forwarded_signals, setup_signal_forwarding,
}
use optrace.Tracer.Exits.{waits}
use optrace.Tracer.Codes.{result_of, all_gone, first_exit}
use optrace.Tracer.Runs.{AllPromised, HasDump, Ended, trace_tracee-Ended}
use optrace.Tracer.Whole.{
  in_parent, Machine, Ending, child_left, returns, calls_exit, exits, aborts, breaks, at_least,
  kernel_ver_greater_or_equal, use_sec_comp, ending, is_given, registered_and_run, trace_child,
  trace_program, on_fork,
}

-- A call whose result is asserted has failed: of `sigprocmask`, or of `sigaction` for a signal that is
-- forwarded.
abbrev pub HasFailed : Machine → Options → Type 0
HasFailed m opts =
    (m.signals_blocked ≡ false)
    ⊎ ((m.mask_restored ≡ false)
        ⊎ ((setup_signal_forwarding m.handled (forwarded_signals opts)).1 ≡ false))

-- The end of the tracer where `expected` is the result of the run: see the theorem.
abbrev pub EndsWell :
    Machine → (has_argv : Bool) → Options → (expected : Option ℤ) → Option Ending → Type 0
EndsWell m has_argv opts expected none = (await_child m.child_waits ≡ none) ⊎ (expected ≡ none)
EndsWell m has_argv opts expected (some (child_left acts left)) = ⊥
EndsWell m has_argv opts expected (some (returns rc c)) =
    (has_argv ≡ true) × (c.proc_map ≡ []) × ((rc ≡ negsuc 1) ⊎ (expected ≡ some rc))
EndsWell m has_argv opts expected (some (calls_exit rc c)) =
    (has_argv ≡ false) × (c.proc_map ≡ []) × ((rc ≡ negsuc 1) ⊎ (expected ≡ some rc))
EndsWell m has_argv opts expected (some (exits n)) = n ≡ 2
EndsWell m has_argv opts expected (some aborts) = HasFailed m opts
EndsWell m has_argv opts expected (some breaks) =
    HasDump m.rounds ⊎ (opts.human_readable_sizes ≡ true)

-- An `assert`, the wait for the child, and the choice of the filter, for what holds of each end.
module _ (P : Option Ending → Type 0) where
  asserted :
      (b : Bool) (e : Option Ending)
      → (b ≡ false → P (some aborts))
      → P e
      → P (if not b then some aborts else e)
  asserted true e h k = k
  asserted false e h k = h refl

  awaited :
      (o : Option Wait) (k : Wait → Option Ending)
      → (o ≡ none → P none)
      → ((w : Wait) → P (k w))
      → P (elim o as (λ _. Option Ending) [ none ↦ none | some w ↦ k w ])
  awaited none k h next = h refl
  awaited (some w) k h next = next w

  chosen :
      (o : Option Bool) (b : Bool) (k : Bool → Option Ending)
      → o ≡ some b
      → P (k b)
      → P (elim o as (λ _. Option Ending) [ none ↦ some aborts | some c ↦ k c ])
  chosen o b k e h =
      subst (λ o. P (elim o as (λ _. Option Ending) [ none ↦ some aborts | some c ↦ k c ])) (sym e)
        h

module _ (m : Machine) (opts : Options) (has_argv : Bool) (expected : Option ℤ) where
  of_outcome :
      (o : Option (Outcome ℤ))
      → Ended opts.human_readable_sizes expected m.rounds o
      → EndsWell m has_argv opts expected
          (elim o as (λ _. Option Ending) [ none ↦ none | some p ↦ some (ending has_argv p) ])
  unfolding ending
  of_outcome none h = inr h
  of_outcome (some (done rc c)) h = by_argv has_argv refl
    where
      by_argv :
          (b : Bool)
          → has_argv ≡ b
          → EndsWell m has_argv opts expected (some (ending b (done rc c)))
      by_argv true e = (e, h.0, h.1)
      by_argv false e = (e, h.0, h.1)
  of_outcome (some aborted) h = absurd h
  of_outcome (some (exited n)) h = h
  of_outcome (some undefined) h = h

module _ (m : Machine) (release : Text) (known : m.release ≡ some release) (pid : ℕ)
    (argv : Option (List Text)) (opts : Options) (counted : is_zero opts.files_in_report ≡ false)
    (fds : HasFds m.start) where
  -- `useSecComp`, the test of `RunTracer` on the release, and the arguments of `RunTracer`.
  abbrev filtered : Bool
  filtered = if opts.use_sec_comp then at_least m.strverscmp release (text "3.5.0-0") else false

  abbrev second_version : Bool
  second_version = at_least m.strverscmp release (text "4.8.0-0")

  abbrev pub config : Config
  config = config_of opts filtered second_version pid

  abbrev pub result : Option ℤ
  result = result_of (waits config) (all_gone m.rounds) (first_exit pid m.rounds)

  asked :
      (version : Text)
      → kernel_ver_greater_or_equal m version ≡ some (at_least m.strverscmp release version)
  unfolding kernel_ver_greater_or_equal
  asked version = rw known refl

  asked_first : use_sec_comp m opts ≡ some filtered
  unfolding use_sec_comp
  asked_first = elim (Bool-cases opts.use_sec_comp) [
    | inl e ↦ rw e (asked (text "3.5.0-0"))
    | inr e ↦ rw e refl
  ]

  module _ (first : m.reply (first_request config) ≡ returned (pos 0))
      (promised : (c : Context)
        → register_tracee m.start pid (new_context opts) ≡ done tt c
        → AllPromised config m.rounds (start_tracer config c)) where
    run_EndsWell :
        EndsWell m (is_given argv) opts result (elim (registered_and_run m opts filtered pid) [
          | none ↦ none
          | some o ↦ some (ending (is_given argv) o)
        ])
    unfolding registered_and_run
    run_EndsWell = rw (asked (text "4.8.0-0")) (
        of_outcome m opts (is_given argv) result
          (trace_tracee m.printer m.start filtered second_version pid m.reply m.rounds opts)
          (trace_tracee-Ended m.printer m.start filtered second_version pid m.reply m.rounds opts
            counted fds first promised))

    Well : Option Ending → Type 0
    Well = EndsWell m (is_given argv) opts result

    after_setup :
        (s : Setup)
        → Well (elim s [
          | exits_2 ↦ some (exits 2)
          | ready ptrace_opts ↦
              if not (setup_signal_forwarding m.handled (forwarded_signals opts)).1
              then some aborts
              else if not m.mask_restored
              then some aborts
              else elim (registered_and_run m opts filtered pid) [
                | none ↦ none
                | some o ↦ some (ending (is_given argv) o)
              ]
        ])
    unfolding Well
    after_setup exits_2 = refl
    after_setup (ready ptrace_opts) =
        asserted Well (setup_signal_forwarding m.handled (forwarded_signals opts)).1 _
          (λ e. inr (inr e)) (asserted Well m.mask_restored _ (λ e. inr (inl e)) run_EndsWell)

    trace_child-EndsWell : Well (trace_child m argv opts filtered pid)
    unfolding trace_child Well
    trace_child-EndsWell =
        awaited Well (await_child m.child_waits) _ (λ e. inl e)
          (λ w. after_setup (setup_tracer w m.options_set opts filtered))

    -- `TraceProgram` in the parent of the fork, on a kernel that keeps to the ptrace protocol as `Promise`
    -- has it: as soon as `waitpid` has told of the child and the rounds hold a result (as for
    -- `trace_tracee`), it has come to an end, by a return, or by `_exit` where it has no arguments, with
    -- this result or -2 and an empty table of processes; by an exit with status 2; or by an abort, only
    -- where `sigprocmask` has failed or a signal to be forwarded got no handler; and it leaves what the
    -- language defines only if some child has died with a core dump, or if `-h` is given. This is if `uname` succeeds, the
    -- report limit is not 0, the tracer's own descriptors are as in `HasFds`, and the first request to
    -- ptrace succeeds.
    pub trace_program-EndsWell :
        m.fork ≡ in_parent pid → EndsWell m (is_given argv) opts result (trace_program m argv opts)
    unfolding trace_program on_fork Well
    trace_program-EndsWell forked = chosen Well (use_sec_comp m opts) filtered _ asked_first (
        asserted Well m.signals_blocked _ (λ e. inl e)
          (subst (λ f. Well (on_fork m argv opts filtered f)) (sym forked) trace_child-EndsWell))
