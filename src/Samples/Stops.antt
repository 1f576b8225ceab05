-- ===== src/Samples/Stops.antt =====
-- The stops of the system calls of Samples/Sessions.
use optrace.Prelude.{
  ◌-◌, ◌^◌, ◌≡◌, refl, ap, some, List, [], ◌∷◌, ◌++◌, ◌==◌, none, if◌then◌else◌, ℕ,
}
use optrace.Prelude.Maps.{find}
use optrace.Abi.{sys_openat, syscall_trap, event_seccomp, enosys}
use optrace.Context.{Context, and_then, skip}
use optrace.Context.Held.{Call, run_calls}
use optrace.Tracer.{stopped, changed, Tracer, goes_on, syscall_undefined}
use optrace.Tracer.Program.{start_tracer, trace_tracee}
use optrace.Tracer.Rounds.{run_rounds}
use optrace.Tracer.Stops.{filter}
use optrace.Tracer.Interleaved.{
  Stopping, enters, leaves, rounds_of, run_rounds-run_calls, States, final,
}
use optrace.Samples.Runs.{opened, opened_run}
use optrace.Samples.Sessions.{used, opening, closing}
use optrace.Samples.Tracers.{round, answering, cfg, first}

-- The stop of the filter before a call, and the one after it.
abbrev stops_of : List Call → List Stopping
stops_of [] = []
stops_of (k ∷ ks) =
    enters 7
      (round (changed 7 (stopped 5 event_seccomp)) (record k.registers { rax = 2 ^ 64 - enosys })) 5
      k.registers.orig_rax
    ∷ leaves 7 (round (changed 7 (stopped syscall_trap 0)) k.registers)
    ∷ stops_of ks

abbrev stops : List Stopping
stops = stops_of (opening ∷ used ++ closing ∷ [])

-- Before the first call.
abbrev alone_7 : States
alone_7 j = if 7 == j then some syscall_undefined else none

run_rounds-run_calls_example :
    (s' : Tracer) × (run_rounds cfg (rounds_of (stops_of (opening ∷ []))) first ≡ goes_on s')
    × (s'.context ≡ opened)
    × (s'.suspended_threads ≡ first.suspended_threads)
    × (s'.tracee_exit_code ≡ first.tracee_exit_code)
    × ((j : ℕ)
        → find j s'.syscall_state_map
          ≡ final (stops_of (opening ∷ [])) (λ j. find j first.syscall_state_map) j)
unfolding start_tracer optrace.Tracer.Program.config_of optrace.Tracer.Rounds.get_syscall_number
    run_calls
run_rounds-run_calls_example =
    run_rounds-run_calls cfg (stops_of (opening ∷ [])) first (λ j. find j first.syscall_state_map)
      opened (λ j. refl)
      (
        filter 5 refl refl,
        answering _ _ 7,
        refl,
        refl,
        refl,
        refl,
        (refl, answering _ _ 7, (sys_openat, refl, refl), tt),
      )
      (ap (λ o. and_then o (λ _. skip)) opened_run)
