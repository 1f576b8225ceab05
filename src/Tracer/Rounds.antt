-- ===== src/Tracer/Rounds.antt =====
-- The rounds of the loop of `RunTracer`, one function per block of its body; and `GetCloneFlags` and
-- `GetSyscallNumber` of src/syscall.cpp on x86_64.
use optrace.Prelude.{
  ℕ, ◌+◌, ◌*◌, ◌-◌, ◌%◌, ◌^◌, Bool, true, false, not, ◌&&◌, ◌||◌, none, some, List, [], ◌∷◌, ◌==◌,
  if◌then◌else◌, bit_and,
}
use optrace.Prelude.Int.{pos, negsuc}
use optrace.Prelude.Maps.{find, insert, erase, has_key}
use optrace.Abi.{
  Registers, sigkill, syscall_trap, event_fork, event_vfork, event_clone, event_exec, event_seccomp,
  clone_thread, enosys,
}
use optrace.Context.{done}
use optrace.Context.Lifecycle.{
  register_process, register_thread, register_exec, register_core_dump, vanish_process,
}
use optrace.Context.Syscalls.{syscall_exit}
use optrace.Tracer.{
  syscall_undefined, no_entry, calls, resume, ask, Status, stopped, signaled, exited_with, other,
  Wait, changed, interrupted, no_child, wait_failed, Request, restart_syscall, continue_syscall,
  get_event_msg, peek_user, get_regs, Round, Config, Tracer, Verdict, goes_on, returns, aborts,
  exits, breaks,
}

-- The lambda `vanishThread`.
unfoldable pub vanish_thread : Round → ℕ → Bool → Tracer → (Tracer → Verdict) → Verdict
unfolding calls resume
vanish_thread round pid notify s k =
    let t : Tracer = record s { syscall_state_map = erase pid s.syscall_state_map } in
    if has_key pid s.syscall_state_map
    then calls t (if notify then vanish_process pid s.context else done tt s.context)
        (λ u. resume round (restart_syscall pid 0) u k)
    else aborts

-- `GetSyscallNumber`, as an `int`.
unfoldable pub get_syscall_number : Registers → ℕ
get_syscall_number r = if r.rax % 2 ^ 32 == 2 ^ 32 - enosys then r.orig_rax % 2 ^ 32 else no_entry

-- `syscallStateMap[pid]`; a new entry would hold 0.
abbrev pub state_of : ℕ → List (ℕ × ℕ) → ℕ
state_of pid m = elim (find pid m) [ none ↦ 0 | some n ↦ n ]

-- The request of `GetCloneFlags`: `RDI` is 14.
abbrev pub get_clone_flags : ℕ → Request
get_clone_flags pid = peek_user pid (8 * 14)

module _ (cfg : Config) (round : Round) (pid : ℕ) where
  -- The last statements of the loop: how the thread goes on.
  unfoldable pub resume_thread : (syscall_stop : Bool) (sig : ℕ) → Tracer → Verdict
  unfolding resume
  resume_thread syscall_stop sig s =
      let in_syscall = not (state_of pid s.syscall_state_map == syscall_undefined) in
      if cfg.use_sec_comp && not (syscall_stop && in_syscall)
      then resume round (continue_syscall pid sig) s goes_on
      else resume round (restart_syscall pid sig) s goes_on

  -- `if (syscallStop)`, on the registers: the entry or the exit of a system call. `SyscallEnter` of the
  -- context has an empty body.
  unfoldable pub on_registers : Registers → (sig : ℕ) → Tracer → Verdict
  unfolding calls resume_thread get_syscall_number
  on_registers r sig s = elim (find pid s.syscall_state_map) [
    | none ↦ aborts
    | some prev ↦
        let number = get_syscall_number r in
        let entered : Tracer = record s {
          syscall_state_map = insert pid number s.syscall_state_map;
        } in
        let left : Tracer = record s {
          syscall_state_map = insert pid syscall_undefined s.syscall_state_map;
        } in
        if prev == syscall_undefined
        then (if number == no_entry
            then returns (negsuc 1) entered
            else resume_thread true sig entered)
        else calls left (syscall_exit round.host pid r s.context) (resume_thread true sig)
  ]

  -- What follows the handling of the event.
  unfoldable pub after_event : (syscall_stop : Bool) (sig : ℕ) → Tracer → Verdict
  unfolding on_registers resume_thread ask
  after_event syscall_stop sig s =
      if syscall_stop
      then ask round pid (get_regs pid) s (λ v. on_registers (round.registers pid) sig s)
      else resume_thread false sig s

  -- A child that has been registered, and may have been suspended before.
  unfoldable pub release_child : (child : ℕ) → Tracer → (Tracer → Verdict) → Verdict
  unfolding resume
  release_child child s k =
      let t : Tracer = record s {
        syscall_state_map = insert child syscall_undefined s.syscall_state_map;
      } in
      let u : Tracer = record t { suspended_threads = erase child s.suspended_threads } in
      if has_key child s.suspended_threads
      then resume round
          (if cfg.use_sec_comp then continue_syscall child 0 else restart_syscall child 0) u
          (λ v.
            k (record v { syscall_state_map = insert child syscall_undefined v.syscall_state_map }))
      else k t

  -- `PTRACE_EVENT_CLONE`, `PTRACE_EVENT_FORK` and `PTRACE_EVENT_VFORK`, once it is known whether the
  -- child is a thread.
  unfoldable pub register_child :
      (is_thread : Bool) (child : ℕ) → Tracer → (Tracer → Verdict) → Verdict
  unfolding calls release_child
  register_child is_thread child s k =
      calls s
        (if is_thread
          then register_thread pid child s.context
          else register_process round.host pid child s.context)
        (λ t. release_child child t k)

  -- The block `if (event)`.
  unfoldable pub on_event : (event sig : ℕ) (syscall_stop : Bool) → Tracer → Verdict
  unfolding ask after_event register_child calls vanish_thread resume
  on_event event sig syscall_stop s = ask round pid (get_event_msg pid) s λ reported.
      if event == event_clone
      then ask round pid (get_clone_flags pid) s (λ flags.
        register_child (not (bit_and flags clone_thread == 0)) reported s
          (after_event syscall_stop sig))
      else if (event == event_fork) || (event == event_vfork)
      then register_child false reported s (after_event syscall_stop sig)
      else if event == event_exec
      then calls s (register_exec round.host pid s.context) (λ t.
        if reported == pid
        then after_event syscall_stop sig t
        else vanish_thread round reported false t (after_event syscall_stop sig))
      else if event == event_seccomp
      then (if cfg.sec_comp_v2
          then after_event true sig
              (record s { syscall_state_map = insert pid syscall_undefined s.syscall_state_map })
          else resume round (restart_syscall pid 0) s goes_on)
      else after_event syscall_stop sig s

  -- A stop. A thread that is not known yet is suspended.
  unfoldable pub on_stop : (sig event : ℕ) → Tracer → Verdict
  unfolding on_event after_event
  on_stop sig event s =
      let syscall_stop = sig == syscall_trap in
      let transmitted = if syscall_stop then 0 else sig in
      let suspended : Tracer = record s {
        suspended_threads = insert pid (stopped sig event) s.suspended_threads;
      } in
      if has_key pid s.syscall_state_map
      then (if event == 0
          then after_event syscall_stop transmitted s
          else on_event event transmitted syscall_stop s)
      else goes_on suspended

  -- `traceeExitCode = exitCode`, unless it is known.
  abbrev pub note_exit : ℕ → Tracer → Tracer
  note_exit code s = elim s.tracee_exit_code [
    | none ↦ record s { tracee_exit_code = some code }
    | some n ↦ s
  ]

  -- `if (exitCode != EXIT_CODE_UNKNOWN)`.
  unfoldable pub on_exit : (code : ℕ) → Tracer → Verdict
  unfolding vanish_thread
  on_exit code s = vanish_thread round pid true s λ t.
      if pid == cfg.tracee_pid
      then (if cfg.follow_forks && cfg.wait_daemons
          then goes_on (note_exit code t)
          else returns (pos code) t)
      else goes_on t

  unfoldable pub on_status : Status → Tracer → Verdict
  unfolding on_stop on_exit calls
  on_status (stopped sig event) s = on_stop sig event s
  on_status (signaled sig core) s =
      calls s (if core then register_core_dump round.host pid sig s.context else done tt s.context)
        (on_exit (128 + sig))
  on_status (exited_with code) s = on_exit code s
  on_status other s = exits 2

-- The rest of the round, for what `wait3` has returned.
unfoldable pub on_wait : Config → Round → Wait → Tracer → Verdict
unfolding on_status
on_wait cfg round (changed pid status) s = on_status cfg round pid status s
on_wait cfg round interrupted s = goes_on s
on_wait cfg round no_child s =
    returns (elim s.tracee_exit_code [ none ↦ pos (128 + sigkill) | some code ↦ pos code ]) s
on_wait cfg round wait_failed s = exits 2

-- One round of the loop.
unfoldable pub step : Config → Round → Tracer → Verdict
unfolding on_wait
step cfg round s = on_wait cfg round round.wait s

abbrev pub continue_run : Verdict → (Tracer → Verdict) → Verdict
continue_run (goes_on s) k = k s
continue_run (returns rc s) k = returns rc s
continue_run aborts k = aborts
continue_run (exits n) k = exits n
continue_run breaks k = breaks

-- The loop, over the rounds that there are.
unfoldable pub run_rounds : Config → List Round → Tracer → Verdict
unfolding step
run_rounds cfg [] s = goes_on s
run_rounds cfg (r ∷ rs) s = continue_run (step cfg r s) (run_rounds cfg rs)
