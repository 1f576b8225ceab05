-- ===== src/Tracer/Runs.antt =====
-- Runs of the loop of `RunTracer`, and `TraceProgram` as a whole.
use optrace.Prelude.{
  ℕ, ◌≡◌, refl, ap, sym, subst, ◌∙◌, ◌⊎◌, inl, inr, Bool, true, false, Option, none, some, List, [],
  ◌∷◌, ◌==◌, arith, Bool-cases, eq_of_==,
}
use optrace.Prelude.Int.{ℤ, pos, negsuc, is_zero}
use optrace.Prelude.Maps.{has_key}
use optrace.Host.{Host}
use optrace.Report.{Printer}
use optrace.Options.{Options}
use optrace.Context.{Context, new_context, Outcome, done, aborted, exited, undefined}
use optrace.Context.Lifecycle.{register_tracee}
use optrace.Context.Live.{IsLive, Ends}
use optrace.Context.Safety.{StaysLive, Unreadable}
use optrace.Context.Reachable.{HasFds, register_tracee-Ends}
use optrace.Context.Runs.{tracee, Reachable-post_process}
use optrace.Tracer.{
  Wait, no_child, Request, restart_syscall, continue_syscall, Reply, returned, Round, Config,
  Tracer, Verdict, goes_on, returns, aborts, exits, breaks,
}
use optrace.Tracer.Rounds.{step, continue_run, run_rounds}
use optrace.Tracer.Verdicts.{Goes}
use optrace.Tracer.Protocol.{IsTracked, Promise, IsDump}
use optrace.Tracer.Threads.{Tracked}
use optrace.Tracer.Loop.{on_wait-Fine}
use optrace.Tracer.Exits.{waits}
use optrace.Tracer.Codes.{first_exit, all_gone, result_of, Answers, run_rounds-Answers}
use optrace.Tracer.Program.{
  start_tracer, first_request, run_tracer, config_of, finish, run_with, trace_tracee,
}

-- The kernel keeps to the protocol in every round that the loop gets to.
abbrev pub AllPromised : Config → List Round → Tracer → Type 0
AllPromised cfg [] s = Unit
AllPromised cfg (r ∷ rs) s =
    Promise r s.context s.syscall_state_map r.wait
    × ((s' : Tracer) → step cfg r s ≡ goes_on s' → AllPromised cfg rs s')

-- The tracer that a round goes on with.
next_of : Tracer → Verdict → Tracer
next_of d (goes_on s) = s
next_of d (returns rc s) = d
next_of d aborts = d
next_of d (exits n) = d
next_of d breaks = d

-- The rounds after a round that is known to go on with `t`.
pub promised_next :
    (cfg : Config) (r : Round) (rs : List Round) (s t s' : Tracer)
    → step cfg r s ≡ goes_on t
    → AllPromised cfg rs t
    → step cfg r s ≡ goes_on s'
    → AllPromised cfg rs s'
unfolding next_of
promised_next cfg r rs s t s' run h e = subst (AllPromised cfg rs) (ap (next_of s) (sym run ∙ e)) h

-- Some child dies with a core dump.
abbrev pub HasDump : List Round → Type 0
HasDump [] = ⊥
HasDump (r ∷ rs) = IsDump r.wait ⊎ HasDump rs

-- A round, and then the rest of the rounds.
continue_run-Goes :
    (B : Type 0) (P : Tracer → Type 0) (v : Verdict) (k : Tracer → Verdict)
    → Goes B P v
    → ((s : Tracer) → v ≡ goes_on s → P s → Goes B P (k s))
    → Goes B P (continue_run v k)
continue_run-Goes B P (goes_on s) k h next = next s refl h
continue_run-Goes B P (returns rc s) k h next = h
continue_run-Goes B P aborts k h next = h
continue_run-Goes B P (exits n) k h next = h
continue_run-Goes B P breaks k h next = h

module _ (start : Host) (opts : Options) (counted : is_zero opts.files_in_report ≡ false)
    (fds : HasFds start) (cfg : Config) where
  run_rounds-Fine :
      (B : Type 0) (rs : List Round) (s : Tracer)
      → Tracked start opts counted fds B s
      → AllPromised cfg rs s
      → (HasDump rs → B)
      → Goes B (Tracked start opts counted fds B) (run_rounds cfg rs s)
  unfolding run_rounds step
  run_rounds-Fine B [] s h p b = h
  run_rounds-Fine B (r ∷ rs) s h p b =
      continue_run-Goes B (Tracked start opts counted fds B) (step cfg r s) (run_rounds cfg rs)
        (on_wait-Fine start opts counted fds B cfg r r.wait s h p.0 (λ d. b (inl d)))
        (λ s' e q. run_rounds-Fine B rs s' q (p.1 s' e) (λ d. b (inr d)))

-- The end of a run of which `expected` is the result: `PostProcess` has returned it, or -2, with no
-- process left, or the tracer has ended with status 2, or left what the language defines after a core
-- dump or with `-h`; or the rounds do not bring the run to its end.
abbrev pub Ended : (human : Bool) → Option ℤ → List Round → Option (Outcome ℤ) → Type 0
Ended human expected rounds none = expected ≡ none
Ended human expected rounds (some (done rc c)) =
    (c.proc_map ≡ []) × ((rc ≡ negsuc 1) ⊎ (expected ≡ some rc))
Ended human expected rounds (some aborted) = ⊥
Ended human expected rounds (some (exited n)) = n ≡ 2
Ended human expected rounds (some undefined) = HasDump rounds ⊎ (human ≡ true)

module _ (p : Printer) (start : Host) (kernel_3_5 kernel_4_8 : Bool) (pid : ℕ)
    (reply : Request → Reply) (rounds : List Round) (opts : Options) where
  abbrev cfg : Config
  cfg = config_of opts kernel_3_5 kernel_4_8 pid

  start_tracer-IsTracked :
      (c : Context)
      → register_tracee start pid (new_context opts) ≡ done tt c
      → IsLive pid 0 c
      → IsTracked start opts c (start_tracer cfg c).syscall_state_map
  unfolding start_tracer config_of
  start_tracer-IsTracked c run live = record {
    reachable = tracee pid c run;
    known = λ j e. elim (Bool-cases (pid == j)) [
      | inl same ↦
          subst (λ n. has_key n c.proc_map ≡ true) (eq_of_== pid j same)
            (ground (arith, live.known))
      | inr n ↦ absurd (ground arith)
    ];
  }

  module _ (counted : is_zero opts.files_in_report ≡ false) (fds : HasFds start) where
    finish-Ended :
        (expected : Option ℤ) (v : Verdict)
        → Goes (HasDump rounds) (Tracked start opts counted fds (HasDump rounds)) v
        → Answers expected v
        → Ended opts.human_readable_sizes expected rounds (finish p v)
    unfolding finish
    finish-Ended expected (goes_on s) h q = q
    finish-Ended expected (returns rc s) h q =
        let (same, (c, ends, none_left, total)) =
          Reachable-post_process start opts counted fds p s.context rc h.reachable in
        elim ends [
          | inl (t, printed, run) ↦
              subst (λ o. Ended opts.human_readable_sizes expected rounds (some o)) (sym run)
                (none_left, q)
          | inr (human, unfit, run) ↦
              subst (λ o. Ended opts.human_readable_sizes expected rounds (some o)) (sym run)
                (inr (sym (ap (λ o. o.human_readable_sizes) same) ∙ human))
        ]
    finish-Ended expected aborts h q = h
    finish-Ended expected (exits n) h q = h
    finish-Ended expected breaks h q = inl h

    -- `TraceProgram`, on a kernel that keeps to the ptrace protocol as `Promise` has it: no `assert`
    -- fails in the tracer; as soon as the rounds hold a result (the first exit code of the tracee, 128
    -- and the number of the signal if it was killed, or 137 if no child is left before; where
    -- forks are followed and daemons waited for, once no child is left), it has ended, with this result and an empty table of
    -- processes, with -2 and an empty table, or with status 2; and it leaves what the language defines
    -- only if some child has died with a core dump, or in the report with `-h`. This is if the report limit is not 0, the
    -- tracer's own descriptors are as in `HasFds`, and the first request to ptrace succeeds.
    pub trace_tracee-Ended :
        reply (first_request cfg) ≡ returned (pos 0)
        → ((c : Context)
            → register_tracee start pid (new_context opts) ≡ done tt c
            → AllPromised cfg rounds (start_tracer cfg c))
        → Ended opts.human_readable_sizes
            (result_of (waits cfg) (all_gone rounds) (first_exit pid rounds))
            rounds
            (trace_tracee p start kernel_3_5 kernel_4_8 pid reply rounds opts)
    unfolding trace_tracee run_tracer optrace.Tracer.ptrace_safe_call start_tracer config_of
    trace_tracee-Ended first promised =
        after (register_tracee start pid (new_context opts)) refl
          (register_tracee-Ends start pid opts counted fds)
      where
        expected : Option ℤ
        expected = result_of (waits cfg) (all_gone rounds) (first_exit cfg.tracee_pid rounds)

        after :
            (o : Outcome (Unit {0}))
            → register_tracee start pid (new_context opts) ≡ o
            → Ends (Unreadable start) (StaysLive pid 0) o
            → Ended opts.human_readable_sizes expected rounds
                (run_with o (λ c. finish p (run_tracer cfg reply rounds c)))
        after (done x c) e live = rw first (
            finish-Ended expected (run_rounds cfg rounds (start_tracer cfg c))
              (run_rounds-Fine start opts counted fds cfg (HasDump rounds) rounds
                (start_tracer cfg c) (start_tracer-IsTracked c e live) (promised c e) (λ d. d))
              (run_rounds-Answers cfg rounds (start_tracer cfg c) refl))
        after aborted e h = absurd h
        after (exited n) e h = h.0
        after undefined e h = absurd h
