-- ===== src/Tracer/Leads.antt =====
-- What the pieces of a round may end with: a stop does not end the loop, but for the -2 of
-- `GetSyscallNumber`.
use optrace.Prelude.{
  ℕ, ◌≡◌, refl, inl, inr, Bool, true, false, not, ◌||◌, Option, none, some, ◌∷◌, ◌==◌,
  if◌then◌else◌, Bool-cases, bit_and,
}
use optrace.Prelude.Int.{ℤ, pos, negsuc, is_negative, pos_part}
use optrace.Prelude.Maps.{find, insert, erase, has_key}
use optrace.Abi.{
  Registers, syscall_trap, esrch, event_fork, event_vfork, event_clone, event_exec, event_seccomp,
  clone_thread,
}
use optrace.Context.{Context, Outcome, done, aborted, exited, undefined}
use optrace.Context.Lifecycle.{register_exec, vanish_process}
use optrace.Context.Syscalls.{syscall_exit}
use optrace.Tracer.{
  Request, restart_syscall, continue_syscall, get_event_msg, get_regs, Reply, returned, failed,
  Round, Config, Tracer, Verdict, goes_on, returns, aborts, exits, breaks, syscall_undefined,
  no_entry, calls, ptrace_safe_call, resume, ask,
}
use optrace.Tracer.Rounds.{
  get_clone_flags, vanish_thread, get_syscall_number, resume_thread, on_registers, after_event,
  release_child, register_child, on_event, on_stop,
}

-- If the loop goes on, then with what `P` says, and if `RunTracer` returns, then with what `R` says.
abbrev pub Leads : (Tracer → Type 0) → (ℤ → Type 0) → Verdict → Type 0
Leads P R (goes_on s) = P s
Leads P R (returns rc s) = R rc
Leads P R aborts = Unit
Leads P R (exits n) = Unit
Leads P R breaks = Unit

module _ (P : Tracer → Type 0) (R : ℤ → Type 0) where
  pub calls-Leads :
      (s : Tracer) (o : Outcome (Unit {0})) (k : Tracer → Verdict)
      → ((c : Context) → Leads P R (k (record s { context = c })))
      → Leads P R (calls s o k)
  unfolding calls
  calls-Leads s (done x c) k next = next c
  calls-Leads s aborted k next = tt
  calls-Leads s (exited n) k next = tt
  calls-Leads s undefined k next = tt

  pub ptrace_safe_call-Leads :
      (r : Reply) (k : ℤ → Verdict) → ((v : ℤ) → Leads P R (k v)) → Leads P R (ptrace_safe_call r k)
  unfolding ptrace_safe_call
  ptrace_safe_call-Leads (returned v) k next = next v
  ptrace_safe_call-Leads (failed errno) k next = elim (Bool-cases (errno == esrch)) [
    | inl gone ↦ rw gone (next (negsuc 0))
    | inr more ↦ rw more tt
  ]

  pub resume-Leads :
      (round : Round) (req : Request) (s : Tracer) (k : Tracer → Verdict)
      → Leads P R (k (record s { resumed = req ∷ s.resumed }))
      → Leads P R (resume round req s k)
  unfolding resume
  resume-Leads round req s k h = ptrace_safe_call-Leads (round.reply req) _ (λ v. h)

  pub ask-Leads :
      (round : Round) (pid : ℕ) (req : Request) (s : Tracer) (k : ℕ → Verdict)
      → P (record s { resumed = restart_syscall pid 0 ∷ s.resumed })
      → ((n : ℕ) → Leads P R (k n))
      → Leads P R (ask round pid req s k)
  unfolding ask
  ask-Leads round pid req s k gone next = ptrace_safe_call-Leads (round.reply req) _ on_value
    where
      on_value :
          (v : ℤ)
          → Leads P R (
              if is_negative v
              then resume round (restart_syscall pid 0) s goes_on
              else k (pos_part v))
      on_value (pos n) = next n
      on_value (negsuc n) = resume-Leads round (restart_syscall pid 0) s goes_on gone

-- A stop does not end the loop, but for the -2 of `GetSyscallNumber`, and does not touch the exit code.
module _ (cfg : Config) (round : Round) (pid : ℕ) (code : Option ℕ) where
  abbrev pub P : Tracer → Type 0
  P s = s.tracee_exit_code ≡ code

  abbrev pub R : ℤ → Type 0
  R rc = rc ≡ negsuc 1

  pub either :
      (b : Bool) (v w : Verdict) → Leads P R v → Leads P R w → Leads P R (if b then v else w)
  either true v w h k = h
  either false v w h k = k

  pub resume_thread-Leads :
      (stop : Bool) (sig : ℕ) (s : Tracer)
      → P s
      → Leads P R (resume_thread cfg round pid stop sig s)
  unfolding resume_thread
  resume_thread-Leads stop sig s h =
      either _ _ _ (resume-Leads P R round (continue_syscall pid sig) s goes_on h)
        (resume-Leads P R round (restart_syscall pid sig) s goes_on h)

  pub on_registers-Leads :
      (r : Registers) (sig : ℕ) (s : Tracer) → P s → Leads P R (on_registers cfg round pid r sig s)
  unfolding on_registers
  on_registers-Leads r sig s h = on_state (find pid s.syscall_state_map)
    where
      entered : Tracer
      entered = record s {
        syscall_state_map = insert pid (get_syscall_number r) s.syscall_state_map;
      }

      left : Tracer
      left = record s { syscall_state_map = insert pid syscall_undefined s.syscall_state_map }

      on_state :
          (o : Option ℕ)
          → Leads P R (elim o as (λ _. Verdict) [
            | none ↦ aborts
            | some prev ↦
                if prev == syscall_undefined
                then (if get_syscall_number r == no_entry
                    then returns (negsuc 1) entered
                    else resume_thread cfg round pid true sig entered)
                else calls left
                    (syscall_exit round.host pid r s.context)
                    (resume_thread cfg round pid true sig)
          ])
      on_state none = tt
      on_state (some prev) =
          either (prev == syscall_undefined)
            (if get_syscall_number r == no_entry
              then returns (negsuc 1) entered
              else resume_thread cfg round pid true sig entered)
            (calls left (syscall_exit round.host pid r s.context)
              (resume_thread cfg round pid true sig))
            (either (get_syscall_number r == no_entry) (returns (negsuc 1) entered)
              (resume_thread cfg round pid true sig entered) refl
              (resume_thread-Leads true sig entered h))
            (calls-Leads P R left (syscall_exit round.host pid r s.context)
              (resume_thread cfg round pid true sig)
              (λ c. resume_thread-Leads true sig (record left { context = c }) h))

  pub after_event-Leads :
      (stop : Bool) (sig : ℕ) (s : Tracer) → P s → Leads P R (after_event cfg round pid stop sig s)
  unfolding after_event
  after_event-Leads true sig s h =
      ask-Leads P R round pid (get_regs pid) s _ h
        (λ n. on_registers-Leads (round.registers pid) sig s h)
  after_event-Leads false sig s h = resume_thread-Leads false sig s h

  pub release_child-Leads :
      (child : ℕ) (s : Tracer) (k : Tracer → Verdict)
      → P s
      → ((t : Tracer) → P t → Leads P R (k t))
      → Leads P R (release_child cfg round pid child s k)
  unfolding release_child
  release_child-Leads child s k h next =
      either (has_key child s.suspended_threads) (resume round req freed again) (k noted)
        (resume-Leads P R round req freed again (next _ h)) (next noted h)
    where
      noted : Tracer
      noted = record s { syscall_state_map = insert child syscall_undefined s.syscall_state_map }

      freed : Tracer
      freed = record noted { suspended_threads = erase child s.suspended_threads }

      req : Request
      req = if cfg.use_sec_comp then continue_syscall child 0 else restart_syscall child 0

      again : Tracer → Verdict
      again v =
          k (record v { syscall_state_map = insert child syscall_undefined v.syscall_state_map })

  pub register_child-Leads :
      (is_thread : Bool) (child : ℕ) (s : Tracer) (k : Tracer → Verdict)
      → P s
      → ((t : Tracer) → P t → Leads P R (k t))
      → Leads P R (register_child cfg round pid is_thread child s k)
  unfolding register_child
  register_child-Leads is_thread child s k h next =
      calls-Leads P R s _ (λ t. release_child cfg round pid child t k)
        (λ c. release_child-Leads child (record s { context = c }) k h next)

  pub vanish_thread-Leads :
      (F : Tracer → Type 0) (Q : ℤ → Type 0) (thread : ℕ) (notify : Bool) (s : Tracer)
      (k : Tracer → Verdict)
      → P s
      → ((t : Tracer) → P t → Leads F Q (k t))
      → Leads F Q (vanish_thread round thread notify s k)
  unfolding vanish_thread
  vanish_thread-Leads F Q thread notify s k h next = on_known (has_key thread s.syscall_state_map)
    where
      t : Tracer
      t = record s { syscall_state_map = erase thread s.syscall_state_map }

      call : Outcome (Unit {0})
      call = if notify then vanish_process thread s.context else done tt s.context

      restart : Tracer → Verdict
      restart u = resume round (restart_syscall thread 0) u k

      on_known : (b : Bool) → Leads F Q (if b then calls t call restart else aborts)
      on_known true = calls-Leads F Q t call restart (λ c.
          resume-Leads F Q round (restart_syscall thread 0) (record t { context = c }) k (next _ h))
      on_known false = tt

  pub on_event-Leads :
      (event sig : ℕ) (stop : Bool) (s : Tracer)
      → P s
      → Leads P R (on_event cfg round pid event sig stop s)
  unfolding on_event
  on_event-Leads event sig stop s h = ask-Leads P R round pid (get_event_msg pid) s _ h (λ reported.
      either (event == event_clone) _ _
        (ask-Leads P R round pid (get_clone_flags pid) s _ h (λ flags.
          register_child-Leads (not (bit_and flags clone_thread == 0)) reported s after h
            (after_event-Leads stop sig)))
        (either ((event == event_fork) || (event == event_vfork)) _ _
          (register_child-Leads false reported s after h (after_event-Leads stop sig))
          (either (event == event_exec) _ _
            (calls-Leads P R s (register_exec round.host pid s.context) (on_exec reported) (λ c.
              either (reported == pid) _ _ (after_event-Leads stop sig (record s { context = c }) h)
                (vanish_thread-Leads P R reported false (record s { context = c }) after h
                  (after_event-Leads stop sig))))
            (either (event == event_seccomp) _ _
              (either cfg.sec_comp_v2 _ _
                (after_event-Leads true sig
                  (record s {
                    syscall_state_map = insert pid syscall_undefined s.syscall_state_map;
                  })
                  h)
                (resume-Leads P R round (restart_syscall pid 0) s goes_on h))
              (after_event-Leads stop sig s h)))))
    where
      after : Tracer → Verdict
      after = after_event cfg round pid stop sig

      on_exec : ℕ → Tracer → Verdict
      on_exec reported t =
          if reported == pid then after t else vanish_thread round reported false t after

  pub on_stop-Leads :
      (sig event : ℕ) (s : Tracer) → P s → Leads P R (on_stop cfg round pid sig event s)
  unfolding on_stop
  on_stop-Leads sig event s h =
      either (has_key pid s.syscall_state_map) _ _
        (either (event == 0) _ _ (after_event-Leads (sig == syscall_trap) _ s h)
          (on_event-Leads event _ (sig == syscall_trap) s h))
        h
