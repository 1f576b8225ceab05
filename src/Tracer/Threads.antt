-- ===== src/Tracer/Threads.antt =====
-- System-call stops in `RunTracer`, and how a thread goes on.
use optrace.Prelude.{
  ℕ, ◌≡◌, refl, ap, sym, subst, ◌∙◌, inl, inr, Bool, true, false, Option, none, some, List, ◌==◌,
  if◌then◌else◌, arith, Bool-cases, Option-cases, eq_of_==,
}
use optrace.Prelude.Int.{negsuc, is_zero}
use optrace.Prelude.Maps.{find, insert, erase, has_key}
use optrace.Host.{Host}
use optrace.Options.{Options}
use optrace.Abi.{Registers}
use optrace.Context.{Context, Outcome, done, aborted, exited, undefined}
use optrace.Context.Syscalls.{syscall_exit}
use optrace.Context.WellFormed.{HasLeader}
use optrace.Context.Live.{IsLive}
use optrace.Context.Exits.{syscall_exit-Ends_any}
use optrace.Context.Table.{view, Leaves, syscall_exit-Leaves}
use optrace.Context.Runs.{system_call, Reachable-IsSound, known-IsLive}
use optrace.Context.Reachable.{HasFds}
use optrace.Tracer.{
  restart_syscall, continue_syscall, get_regs, Round, Config, Tracer, Verdict, goes_on, returns,
  aborts, syscall_undefined, no_entry, calls, resume,
}
use optrace.Tracer.Rounds.{get_syscall_number, resume_thread, on_registers, after_event}
use optrace.Tracer.Verdicts.{Goes, Settles, Settles-Ends, calls-Goes, resume-Goes, ask-Goes}
use optrace.Tracer.Protocol.{has_key-insert, has_key-erase, IsTracked}

module _ (start : Host) (opts : Options) (counted : is_zero opts.files_in_report ≡ false)
    (fds : HasFds start) (B : Type 0) where
  abbrev pub Tracked : Tracer → Type 0
  Tracked s = IsTracked start opts s.context s.syscall_state_map

  abbrev pub Fine : Verdict → Type 0
  Fine v = Goes B Tracked v

  pub IsTracked-insert :
      (c : Context) (m : List (ℕ × ℕ)) (k v : ℕ)
      → has_key k c.proc_map ≡ true
      → IsTracked start opts c m
      → IsTracked start opts c (insert k v m)
  IsTracked-insert c m k v here h = record {
    reachable = h.reachable;
    known = λ j e. elim (Bool-cases (k == j)) [
      | inl same ↦ ap (λ n. has_key n c.proc_map) (sym (eq_of_== k j same)) ∙ here
      | inr n ↦ h.known j (ground (arith, has_key-insert k j v m))
    ];
  }

  pub IsTracked-erase :
      (c : Context) (m : List (ℕ × ℕ)) (k : ℕ)
      → IsTracked start opts c m
      → IsTracked start opts c (erase k m)
  IsTracked-erase c m k h = record {
    reachable = h.reachable;
    known = λ j e. h.known j (ground (arith, has_key-erase k j m));
  }

  module _ (cfg : Config) (round : Round) (pid : ℕ) where
    pub resume_thread-Fine :
        (stop : Bool) (sig : ℕ) (s : Tracer)
        → Tracked s
        → Fine (resume_thread cfg round pid stop sig s)
    unfolding resume_thread
    resume_thread-Fine stop sig s h = choose _
      where
        choose :
            (b : Bool)
            → Fine (
                if b
                then resume round (continue_syscall pid sig) s goes_on
                else resume round (restart_syscall pid sig) s goes_on)
        choose true = resume-Goes B Tracked round (continue_syscall pid sig) s goes_on h
        choose false = resume-Goes B Tracked round (restart_syscall pid sig) s goes_on h

    pub address :
        (c : Context) → has_key pid c.proc_map ≡ true → (a : ℕ) × (find pid c.proc_map ≡ some a)
    address c e = elim (Option-cases (find pid c.proc_map)) [
      | inl n ↦ absurd (ground arith)
      | inr at ↦ at
    ]

    pub IsLive-at :
        (s : Tracer) (a : ℕ)
        → Tracked s
        → find pid s.context.proc_map ≡ some a
        → HasLeader a s.context
        → IsLive pid a s.context
    IsLive-at s a h at leader =
        known-IsLive pid a s.context
          (Reachable-IsSound start opts counted fds s.context h.reachable) at leader

    Settles-Leaves :
        (Q : Context → Type 0) (m : List (ℕ × ℕ) × Options) (o : Outcome (Unit {0}))
        → Settles B Q o
        → Leaves m o
        → Settles B (λ c. (o ≡ done tt c) × (c.proc_map ≡ m.0)) o
    Settles-Leaves Q m (done x c) q e = (refl, ap (λ v. v.0) e)
    Settles-Leaves Q m aborted q e = q
    Settles-Leaves Q m (exited n) q e = q
    Settles-Leaves Q m undefined q e = q

    -- The end of a system call.
    exit-Fine :
        (r : Registers) (sig : ℕ) (s t : Tracer) (a : ℕ)
        → Tracked s
        → t.syscall_state_map ≡ insert pid syscall_undefined s.syscall_state_map
        → find pid s.context.proc_map ≡ some a
        → HasLeader a s.context
        → Fine (
            calls t
              (syscall_exit round.host pid r s.context)
              (resume_thread cfg round pid true sig))
    exit-Fine r sig s t a h same at leader =
        let live = IsLive-at s a h at leader in
        let settled =
          Settles-Leaves (IsLive pid a) (view s.context) (syscall_exit round.host pid r s.context)
            (Settles-Ends B round.host (IsLive pid a) _
              (syscall_exit-Ends_any round.host pid a s.context live r))
            (syscall_exit-Leaves (view s.context) round.host pid s.context refl r) in
        calls-Goes B Tracked _ t (syscall_exit round.host pid r s.context) _ settled (λ c q.
          resume_thread-Fine true sig (record t { context = c })
            (subst (IsTracked start opts c) (sym same) (
              IsTracked-insert c s.syscall_state_map pid syscall_undefined
                (ap (has_key pid) q.1 ∙ ground arith)
                (record {
                  reachable = system_call round.host pid a r s.context c h.reachable at leader q.0;
                  known = λ j e. ap (has_key j) q.1 ∙ h.known j e;
                }))))

    pub on_registers-Fine :
        (r : Registers) (sig : ℕ) (s : Tracer)
        → Tracked s
        → has_key pid s.syscall_state_map ≡ true
        → ((a : ℕ) → find pid s.context.proc_map ≡ some a → HasLeader a s.context)
        → Fine (on_registers cfg round pid r sig s)
    unfolding on_registers
    on_registers-Fine r sig s h here led = on_state (find pid s.syscall_state_map) refl
      where
        number : ℕ
        number = get_syscall_number r

        entered : Tracer
        entered = record s { syscall_state_map = insert pid number s.syscall_state_map }

        left : Tracer
        left = record s { syscall_state_map = insert pid syscall_undefined s.syscall_state_map }

        known : has_key pid s.context.proc_map ≡ true
        known = h.known pid here

        tracked : Tracked entered
        tracked = IsTracked-insert s.context s.syscall_state_map pid number known h

        on_prev :
            (undef unread : Bool)
            → Fine (
                if undef
                then (if unread
                    then returns (negsuc 1) entered
                    else resume_thread cfg round pid true sig entered)
                else calls left
                    (syscall_exit round.host pid r s.context)
                    (resume_thread cfg round pid true sig))
        on_prev true true = tracked
        on_prev true false = resume_thread-Fine true sig entered tracked
        on_prev false unread =
            let (a, at) = address s.context known in exit-Fine r sig s left a h refl at (led a at)

        on_state :
            (p : Option ℕ)
            → find pid s.syscall_state_map ≡ p
            → Fine (elim p as (λ _. Verdict) [
              | none ↦ aborts
              | some prev ↦
                  if prev == syscall_undefined
                  then (if number == no_entry
                      then returns (negsuc 1) entered
                      else resume_thread cfg round pid true sig entered)
                  else calls left
                      (syscall_exit round.host pid r s.context)
                      (resume_thread cfg round pid true sig)
            ])
        on_state none e = absurd (ground (arith, here))
        on_state (some prev) e = on_prev (prev == syscall_undefined) (number == no_entry)

    pub after_event-Fine :
        (stop : Bool) (sig : ℕ) (s : Tracer)
        → Tracked s
        → has_key pid s.syscall_state_map ≡ true
        → ((a : ℕ) → find pid s.context.proc_map ≡ some a → HasLeader a s.context)
        → Fine (after_event cfg round pid stop sig s)
    unfolding after_event
    after_event-Fine true sig s h here led =
        ask-Goes B Tracked round pid (get_regs pid) s _ h
          (λ n e. on_registers-Fine (round.registers pid) sig s h here led)
    after_event-Fine false sig s h here led = resume_thread-Fine false sig s h

    -- After an event that is not a system-call stop.
    pub quiet_event-Fine :
        (sig : ℕ) (s : Tracer) → Tracked s → Fine (after_event cfg round pid false sig s)
    unfolding after_event
    quiet_event-Fine sig s h = resume_thread-Fine false sig s h
