-- ===== src/Samples/Tracers.antt =====
-- Runs of the tracer.
use optrace.Prelude.{
  ℕ, sym, subst, ◌∙◌, ◌-◌, ◌^◌, ◌≡◌, refl, true, false, none, some, List, [], ◌∷◌, arith,
}
use optrace.Prelude.Int.{pos}
use optrace.Abi.{Registers, sys_openat, syscall_trap, event_seccomp, enosys}
use optrace.Context.{Context, new_context, Outcome, done}
use optrace.Tracer.{
  Wait, changed, stopped, exited_with, returned, Round, Tracer, goes_on, syscall_undefined,
  continue_syscall, restart_syscall,
}
use optrace.Tracer.Rounds.{step, run_rounds}
use optrace.Tracer.Program.{start_tracer, config_of, trace_tracee}
use optrace.Tracer.Codes.{Answers, run_rounds-Answers}
use optrace.Tracer.Runs.{AllPromised, promised_next, Ended, trace_tracee-Ended}
use optrace.Tracer.Stops.{filter, Answering, Called, run_rounds-Called}
use optrace.Tracer.Births.{fork}
use optrace.Tracer.Orders.{run_rounds-either_order}
use optrace.Abi.{event_fork}
use optrace.Tracer.{Request, Reply, peek_user, get_regs}
use optrace.Context.Lifecycle.{register_process}
use optrace.Context.Forks.{register_process-IsWellFormed}
use optrace.Samples.Processes.{shell, shell-IsWellFormed, shell_known, shell_fresh}
use optrace.Samples.Files.{host, options, printer}
use optrace.Samples.Runs.{started, opened, opened_run, open_call, started_run, host_fds}
use optrace.Context.Syscalls.{syscall_exit}
use optrace.Context.WellFormed.{HasLeader}
use optrace.Prelude.Maps.{find}
use optrace.Tracer.{get_event_msg, Config}

abbrev pub round : Wait → Registers → Round
round w r = record { wait = w; reply = λ req. returned (pos 0); registers = λ pid. r; host = host }

-- `openat` as the tracer sees it before the kernel has acted.
abbrev entry_call : Registers
entry_call = record open_call { rax = 2 ^ 64 - enosys }

abbrev pub cfg : Config
cfg = config_of options true true 7

abbrev entry_stop : Round
entry_stop = round (changed 7 (stopped 5 event_seccomp)) entry_call

abbrev exit_stop : Round
exit_stop = round (changed 7 (stopped syscall_trap 0)) (record open_call { rax = 1 })

abbrev pub exit_round : Round
exit_round = round (changed 7 (exited_with 3)) open_call

-- The stop of the filter at `openat`, the stop at its return, and the exit of the tracee with status 3.
abbrev pub rounds : List Round
rounds = entry_stop ∷ exit_stop ∷ exit_round ∷ []

abbrev pub first : Tracer
first = start_tracer cfg started

abbrev in_call : Tracer
in_call = record {
  context = started;
  suspended_threads = [];
  syscall_state_map = (7, sys_openat) ∷ [];
  tracee_exit_code = none;
  resumed = restart_syscall 7 5 ∷ [];
}

-- `/t/a` is open.
abbrev after_call : Tracer
after_call = record {
  context = opened;
  suspended_threads = [];
  syscall_state_map = (7, syscall_undefined) ∷ [];
  tracee_exit_code = none;
  resumed = continue_syscall 7 0 ∷ restart_syscall 7 5 ∷ [];
}

stop_before : step cfg entry_stop first ≡ goes_on in_call
unfolding step start_tracer config_of optrace.Tracer.ptrace_safe_call optrace.Tracer.resume
    optrace.Tracer.Rounds.get_syscall_number
stop_before = refl

stop_after : step cfg exit_stop in_call ≡ goes_on after_call
unfolding step config_of optrace.Tracer.calls optrace.Tracer.ptrace_safe_call optrace.Tracer.resume
    syscall_exit optrace.Context.Descriptors.op_open_file started optrace.FileState.new_file_state
    optrace.Context.Objects.resize
stop_after = refl

-- The only leader is the tracee.
led_by_tracee :
    (c : Context) (a : ℕ)
    → c.group_leaders ≡ 7 ∷ []
    → c.proc_map ≡ (7, 0) ∷ []
    → find 7 c.proc_map ≡ some a
    → HasLeader a c
led_by_tracee c a leaders table e = (7, rw leaders refl, e)

pub same_done : (c d : Context) → done (tt {0}) c ≡ done tt d → c ≡ d
same_done c d e = cc

pub promised : (c : Context) → started ≡ c → AllPromised cfg rounds (start_tracer cfg c)
unfolding start_tracer config_of started optrace.Context.Syscalls.decode
promised c e =
    subst (λ d. AllPromised cfg rounds (start_tracer cfg d)) e
      (
        (λ k. record {
          led = λ a f. led_by_tracee started a refl refl f;
          int_fd = omega arith;
          trap = λ f. refl;
          fresh = λ child f. absurd (ground arith);
          former = λ thread f. absurd (ground arith);
        }),
        λ s1 e1.
            promised_next cfg entry_stop (exit_stop ∷ exit_round ∷ []) first in_call s1 stop_before
              (
                (λ k. record {
                  led = λ a f. led_by_tracee started a refl refl f;
                  int_fd = omega arith;
                  trap = λ f. absurd (ground arith);
                  fresh = λ child f. absurd (ground arith);
                  former = λ thread f. absurd (ground arith);
                }),
                λ s2 e2.
                    promised_next cfg exit_stop (exit_round ∷ []) in_call after_call s2 stop_after
                      (refl, λ s3 e3. tt) e2,
              )
              e1,
      )

trace_tracee-Ended_example :
    Ended false
      (some (pos 3))
      rounds
      (trace_tracee printer host true true 7 (λ req. returned (pos 0)) rounds options)
unfolding config_of
trace_tracee-Ended_example =
    trace_tracee-Ended printer host true true 7 (λ req. returned (pos 0)) rounds options refl
      host_fds refl (λ c run. promised c (same_done started c (sym started_run ∙ run)))

run_rounds-Answers_example : Answers (some (pos 3)) (run_rounds cfg rounds first)
unfolding start_tracer config_of
run_rounds-Answers_example = run_rounds-Answers cfg rounds first refl

pub answering : (w : Wait) (r : Registers) (pid : ℕ) → Answering (round w r) pid
answering w r pid = record {
  message = (0, refl);
  regs = (0, refl);
  restart = λ sig. (pos 0, refl);
  continue = λ sig. (pos 0, refl);
}

run_rounds-Called_example :
    (s' : Tracer) × (run_rounds cfg (entry_stop ∷ exit_stop ∷ []) first ≡ goes_on s')
    × Called cfg 7 sys_openat 5 opened first s'
unfolding config_of start_tracer optrace.Tracer.Rounds.get_syscall_number
run_rounds-Called_example =
    run_rounds-Called cfg 7 entry_stop exit_stop 5 sys_openat first opened (filter 5 refl refl) refl
      (answering _ _ 7) (answering _ _ 7) refl refl refl refl opened_run

-- What `RegisterProcess` makes of it.
abbrev forked_shell : (c' : Context) × (register_process host 7 9 shell ≡ done tt c')
forked_shell =
    let (c', run, wf, entry, leads, storage, table) =
      register_process-IsWellFormed host 7 9 0 shell shell-IsWellFormed shell_known shell_fresh in
    (c', run)

-- Process 7 of the shell forks process 9.
abbrev shell_tracer : Tracer
shell_tracer = record first {
  context = shell;
  syscall_state_map = (7, syscall_undefined) ∷ (8, syscall_undefined) ∷ [];
}

abbrev tells_9 : Request → Reply
tells_9 (get_event_msg pid) = returned (pos 9)
tells_9 (restart_syscall pid sig) = returned (pos 0)
tells_9 (continue_syscall pid sig) = returned (pos 0)
tells_9 (peek_user pid offset) = returned (pos 0)
tells_9 (get_regs pid) = returned (pos 0)

abbrev fork_event : Round
fork_event = record (round (changed 7 (stopped 5 event_fork)) open_call) { reply = tells_9 }

abbrev child_stop : Round
child_stop = round (changed 9 (stopped 19 0)) open_call

told : (pid : ℕ) → Answering fork_event pid
told pid = record {
  message = (9, refl);
  regs = (0, refl);
  restart = λ sig. (pos 0, refl);
  continue = λ sig. (pos 0, refl);
}

run_rounds-either_order_example :
    (e : Tracer) × (l : Tracer) × (run_rounds cfg (fork_event ∷ child_stop ∷ []) shell_tracer
      ≡ goes_on e)
    × (run_rounds cfg (child_stop ∷ fork_event ∷ []) shell_tracer ≡ goes_on l)
    × (e.context ≡ forked_shell.0)
    × (l.context ≡ forked_shell.0)
    × (e.syscall_state_map ≡ l.syscall_state_map)
    × (e.suspended_threads ≡ l.suspended_threads)
    × (e.resumed ≡ continue_syscall 9 19 ∷ continue_syscall 7 5 ∷ [])
    × (l.resumed ≡ continue_syscall 7 5 ∷ continue_syscall 9 0 ∷ [])
unfolding config_of start_tracer
run_rounds-either_order_example =
    run_rounds-either_order cfg fork_event child_stop 7 9 5 19 false shell_tracer forked_shell.0
      (record {
        number = event_fork;
        reported = refl;
        birth = fork;
        message = refl;
        registers = forked_shell.1;
        stops = refl;
        plain = refl;
        first_plain = refl;
        parent = refl;
        unknown = refl;
        new = refl;
        parent_answers = told 7;
        child_released = told 9;
        child_answers = answering _ _ 9;
      })
