-- ===== src/Tracer/Events.antt =====
-- Execs, events, exits and whole rounds of `RunTracer`.
use optrace.Prelude.{
  ℕ, ◌≡◌, refl, ap, ◌∙◌, inl, inr, Bool, true, false, not, ◌||◌, none, some, length, ◌==◌,
  if◌then◌else◌, arith, Bool-cases, bit_and,
}
use optrace.Prelude.Int.{pos, is_zero}
use optrace.Prelude.Maps.{find, insert, erase, has_key}
use optrace.Host.{Host}
use optrace.Options.{Options}
use optrace.Abi.{event_fork, event_vfork, event_clone, event_exec, event_seccomp, clone_thread}
use optrace.Context.Lifecycle.{register_exec}
use optrace.Context.WellFormed.{HasLeader}
use optrace.Context.Execs.{register_exec-IsLive}
use optrace.Context.Runs.{exec}
use optrace.Context.Reachable.{HasFds}
use optrace.Tracer.{
  restart_syscall, get_event_msg, returned, Round, Config, Tracer, Verdict, goes_on,
  syscall_undefined, calls, resume, ask,
}
use optrace.Tracer.Rounds.{get_clone_flags, vanish_thread, after_event, register_child, on_event}
use optrace.Tracer.Verdicts.{Goes, Settles, Settles-done, calls-Goes, resume-Goes, ask-Goes}
use optrace.Tracer.Protocol.{has_key-insert, has_key-erase, IsTracked, StopPromise}
use optrace.Tracer.Threads.{
  Tracked, IsTracked-insert, IsTracked-erase, address, IsLive-at, after_event-Fine,
  quiet_event-Fine,
}
use optrace.Tracer.Children.{register_child-Fine}

module _ (start : Host) (opts : Options) (counted : is_zero opts.files_in_report ≡ false)
    (fds : HasFds start) (B : Type 0) where
  abbrev Ok : Tracer → Type 0
  Ok = Tracked start opts counted fds B

  module _ (cfg : Config) (round : Round) (pid : ℕ) where
    go_on : ℕ → Tracer → Verdict
    go_on = after_event cfg round pid false

    exec-Settles :
        (a : ℕ) (s : Tracer)
        → Ok s
        → find pid s.context.proc_map ≡ some a
        → HasLeader a s.context
        → Settles B
            (λ c. IsTracked start opts c s.syscall_state_map)
            (register_exec round.host pid s.context)
    exec-Settles a s h at leader =
        let live = IsLive-at start opts counted fds B cfg round pid s a h at leader in
        let (c, run, next, table) = register_exec-IsLive round.host pid a s.context live in
        Settles-done B _ (register_exec round.host pid s.context) c run (record {
          reachable = exec round.host pid a s.context c h.reachable at leader run;
          known = λ j e.
              ap (has_key j) table
              ∙ ground (
                arith,
                has_key-insert pid j (length s.context.procs) (erase pid s.context.proc_map),
                has_key-erase pid j s.context.proc_map,
                h.known j e,
              );
        })

    -- The thread that called exec goes.
    former-Fine :
        (thread sig : ℕ) (s : Tracer)
        → Ok s
        → has_key thread s.syscall_state_map ≡ true
        → Goes B Ok (vanish_thread round thread false s (go_on sig))
    unfolding vanish_thread calls go_on
    former-Fine thread sig s h here = rw here (
        resume-Goes B Ok round (restart_syscall thread 0)
          (record s { syscall_state_map = erase thread s.syscall_state_map }) (go_on sig)
          (quiet_event-Fine start opts counted fds B cfg round pid sig _
            (IsTracked-erase start opts counted fds B s.context s.syscall_state_map thread h)))

    exec-Fine :
        (reported a sig : ℕ) (s : Tracer)
        → Ok s
        → find pid s.context.proc_map ≡ some a
        → HasLeader a s.context
        → ((reported == pid) ≡ false → has_key reported s.syscall_state_map ≡ true)
        → Goes B Ok (
            calls s (register_exec round.host pid s.context) (λ t.
              if reported == pid
              then go_on sig t
              else vanish_thread round reported false t (go_on sig)))
    unfolding go_on
    exec-Fine reported a sig s h at leader former =
        calls-Goes B Ok _ s (register_exec round.host pid s.context) _
          (exec-Settles a s h at leader)
          (λ c q. elim (Bool-cases (reported == pid)) [
            | inl same ↦ rw same (
                quiet_event-Fine start opts counted fds B cfg round pid sig
                  (record s { context = c }) q)
            | inr differ ↦
                rw differ (former-Fine reported sig (record s { context = c }) q (former differ))
          ])

    seccomp-Fine :
        (v2 : Bool) (sig : ℕ) (s : Tracer)
        → Ok s
        → has_key pid s.syscall_state_map ≡ true
        → ((a : ℕ) → find pid s.context.proc_map ≡ some a → HasLeader a s.context)
        → Goes B Ok (
            if v2
            then after_event cfg round pid true sig
                (record s { syscall_state_map = insert pid syscall_undefined s.syscall_state_map })
            else resume round (restart_syscall pid 0) s goes_on)
    seccomp-Fine false sig s h here led = resume-Goes B Ok round (restart_syscall pid 0) s goes_on h
    seccomp-Fine true sig s h here led =
        after_event-Fine start opts counted fds B cfg round pid true sig _
          (IsTracked-insert start opts counted fds B s.context s.syscall_state_map pid
            syscall_undefined (h.known pid here) h)
          (ground (arith, has_key-insert pid pid syscall_undefined s.syscall_state_map)) led

    pub on_event-Fine :
        (event sig raw : ℕ) (s : Tracer)
        → Ok s
        → has_key pid s.syscall_state_map ≡ true
        → StopPromise round pid raw event s.context s.syscall_state_map
        → Goes B Ok (on_event cfg round pid event sig false s)
    unfolding on_event go_on
    on_event-Fine event sig raw s h here p =
        ask-Goes B Ok round pid (get_event_msg pid) s _ h (λ reported e.
          cases reported e (event == event_clone) refl (event == event_fork) refl
            (event == event_vfork) refl (event == event_exec) refl (event == event_seccomp))
      where
        found : (a : ℕ) × (find pid s.context.proc_map ≡ some a)
        found = address start opts counted fds B cfg round pid s.context (h.known pid here)

        child :
            (is_thread : Bool) (reported : ℕ)
            → find reported s.context.proc_map ≡ none
            → Goes B Ok (
                register_child cfg round pid is_thread reported s
                  (after_event cfg round pid false sig))
        child is_thread reported fresh =
            register_child-Fine start opts counted fds B cfg round pid is_thread reported found.0
              sig s h found.1 (p.led found.0 found.1) fresh

        cases :
            (reported : ℕ)
            → round.reply (get_event_msg pid) ≡ returned (pos reported)
            → (c : Bool) → (event == event_clone) ≡ c
            → (f : Bool) → (event == event_fork) ≡ f
            → (v : Bool) → (event == event_vfork) ≡ v
            → (x : Bool) → (event == event_exec) ≡ x
            → (b : Bool)
            → Goes B Ok (
                if c
                then ask round pid (get_clone_flags pid) s (λ flags.
                  register_child cfg round pid
                    (not (bit_and flags clone_thread == 0))
                    reported
                    s
                    (after_event cfg round pid false sig))
                else if f || v
                then register_child cfg round pid false reported s
                    (after_event cfg round pid false sig)
                else if x
                then calls s (register_exec round.host pid s.context) (λ t.
                  if reported == pid
                  then after_event cfg round pid false sig t
                  else vanish_thread round reported false t (after_event cfg round pid false sig))
                else if b
                then (if cfg.sec_comp_v2
                    then after_event cfg round pid true sig (record s {
                      syscall_state_map = insert pid syscall_undefined s.syscall_state_map;
                    })
                    else resume round (restart_syscall pid 0) s goes_on)
                else after_event cfg round pid false sig s)
        cases reported e true ce f fe v ve x xe b =
            ask-Goes B Ok round pid (get_clone_flags pid) s _ h (λ flags _.
              child (not (bit_and flags clone_thread == 0)) reported
                (p.fresh reported (ground (arith, ce)) e))
        cases reported e false ce true fe v ve x xe b =
            child false reported (p.fresh reported (ground (arith, ce, fe)) e)
        cases reported e false ce false fe true ve x xe b =
            child false reported (p.fresh reported (ground (arith, ce, fe, ve)) e)
        cases reported e false ce false fe false ve true xe b =
            exec-Fine reported found.0 sig s h found.1 (p.led found.0 found.1)
              (p.former reported xe e)
        cases reported e false ce false fe false ve false xe true =
            seccomp-Fine cfg.sec_comp_v2 sig s h here p.led
        cases reported e false ce false fe false ve false xe false =
            quiet_event-Fine start opts counted fds B cfg round pid sig s h
