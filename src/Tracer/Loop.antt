-- ===== src/Tracer/Loop.antt =====
-- Whole rounds of `RunTracer`, and runs of them.
use optrace.Prelude.{
  ℕ, ◌+◌, ◌≡◌, refl, ap, ◌∙◌, inl, inr, Bool, true, false, ◌&&◌, Option, none, some, ◌∷◌, ◌==◌,
  if◌then◌else◌, arith, Bool-cases,
}
use optrace.Prelude.Int.{pos, is_zero}
use optrace.Prelude.Maps.{find, erase, has_key}
use optrace.Host.{Host}
use optrace.Options.{Options}
use optrace.Abi.{syscall_trap}
use optrace.Context.{Context, Outcome, done, aborted, exited, undefined}
use optrace.Context.Lifecycle.{register_core_dump, vanish_process}
use optrace.Context.PostProcess.{vanish_process-Vanished}
use optrace.Context.Runs.{
  core_dump, vanish, Returns, Reachable-IsSound, core_dump-Returns, Reported,
}
use optrace.Context.Reachable.{HasFds}
use optrace.Tracer.{
  stopped, signaled, exited_with, other, Wait, changed, interrupted, no_child, wait_failed,
  restart_syscall, Round, Config, Tracer, Verdict, goes_on, returns, resume,
}
use optrace.Tracer.Rounds.{vanish_thread, on_stop, on_exit, on_status, note_exit, on_wait}
use optrace.Tracer.Verdicts.{Goes, Settles, Settles-done, calls-Goes, resume-Goes}
use optrace.Tracer.Protocol.{has_key-erase, IsTracked, StopPromise, Promise, IsDump}
use optrace.Tracer.Threads.{Tracked, address, after_event-Fine}
use optrace.Tracer.Events.{on_event-Fine}

module _ (start : Host) (opts : Options) (counted : is_zero opts.files_in_report ≡ false)
    (fds : HasFds start) (B : Type 0) where
  abbrev Ok : Tracer → Type 0
  Ok = Tracked start opts counted fds B

  module _ (cfg : Config) (round : Round) (pid : ℕ) where
    on_exit-Fine :
        (code : ℕ) (s : Tracer)
        → Ok s
        → has_key pid s.syscall_state_map ≡ true
        → Goes B Ok (on_exit cfg round pid code s)
    unfolding on_exit vanish_thread
    on_exit-Fine code s h here =
        let (a, at) = address start opts counted fds B cfg round pid s.context (h.known pid here) in
        let sound = Reachable-IsSound start opts counted fds s.context h.reachable in
        let (c, run, v) =
          vanish_process-Vanished pid a s.context sound.well_formed sound.counted at in
        let rest : IsTracked start opts c (erase pid s.syscall_state_map) = record {
          reachable = vanish pid a s.context c h.reachable at run;
          known = λ j e.
              ap (has_key j) v.proc_map
              ∙ ground (
                arith,
                has_key-erase pid j s.context.proc_map,
                has_key-erase pid j s.syscall_state_map,
                h.known j,
              );
        } in
        let gone : Tracer = record s { syscall_state_map = erase pid s.syscall_state_map } in
        let Q : Context → Type 0 = λ d. IsTracked start opts d gone.syscall_state_map in
        rw here (
          calls-Goes B Ok Q gone (vanish_process pid s.context)
            (λ u. resume round (restart_syscall pid 0) u last)
            (Settles-done B Q (vanish_process pid s.context) c run rest)
            (λ d q.
              resume-Goes B Ok round (restart_syscall pid 0) (record gone { context = d }) last
                (ended (pid == cfg.tracee_pid) (cfg.follow_forks && cfg.wait_daemons)
                  (record gone { context = d; resumed = restart_syscall pid 0 ∷ s.resumed }) q)))
      where
        last : Tracer → Verdict
        last t =
            if pid == cfg.tracee_pid
            then (if cfg.follow_forks && cfg.wait_daemons
                then goes_on (note_exit cfg round pid code t)
                else returns (pos code) t)
            else goes_on t

        noted : (t : Tracer) → Ok t → Ok (note_exit cfg round pid code t)
        noted t q = on_code t.tracee_exit_code
          where
            on_code :
                (o : Option ℕ)
                → Ok (elim o as (λ _. Tracer) [
                  | none ↦ record t { tracee_exit_code = some code }
                  | some n ↦ t
                ])
            on_code none = q
            on_code (some n) = q

        ended :
            (is_tracee waits : Bool) (t : Tracer)
            → Ok t
            → Goes B Ok (
                if is_tracee
                then (if waits
                    then goes_on (note_exit cfg round pid code t)
                    else returns (pos code) t)
                else goes_on t)
        ended true true t q = noted t q
        ended true false t q = q
        ended false w t q = q

    on_stop-Fine :
        (sig event : ℕ) (s : Tracer)
        → Ok s
        → (has_key pid s.syscall_state_map ≡ true
            → StopPromise round pid sig event s.context s.syscall_state_map)
        → Goes B Ok (on_stop cfg round pid sig event s)
    unfolding on_stop
    on_stop-Fine sig event s h promise = elim (Bool-cases (has_key pid s.syscall_state_map)) [
      | inr unknown ↦ rw unknown h
      | inl here ↦ rw here (elim (Bool-cases (event == 0)) [
        | inl plain ↦ rw plain (
            after_event-Fine start opts counted fds B cfg round pid (sig == syscall_trap) _ s h here
              (promise here).led)
        | inr special ↦
            rw (special, (promise here).trap special)
              (on_event-Fine start opts counted fds B cfg round pid event sig sig s h here
                (promise here))
      ])
    ]

    core_dump-Settles :
        (core : Bool) (sig : ℕ) (s : Tracer)
        → (core ≡ true → B)
        → Ok s
        → has_key pid s.syscall_state_map ≡ true
        → Settles B
            (λ c. IsTracked start opts c s.syscall_state_map)
            (if core then register_core_dump round.host pid sig s.context else done tt s.context)
    core_dump-Settles false sig s b h here = h
    core_dump-Settles true sig s b h here =
        let (a, at) = address start opts counted fds B cfg round pid s.context (h.known pid here) in
        let sound = Reachable-IsSound start opts counted fds s.context h.reachable in
        on_outcome a at (register_core_dump round.host pid sig s.context) refl
          (core_dump-Returns round.host pid a sig s.context sound at)
      where
        on_outcome :
            (a : ℕ)
            → find pid s.context.proc_map ≡ some a
            → (o : Outcome (Unit {0})) → register_core_dump round.host pid sig s.context ≡ o
            → Returns (Reported s.context) o
            → Settles B (λ c. IsTracked start opts c s.syscall_state_map) o
        on_outcome a at (done x c) e q = record {
          reachable = core_dump round.host pid a sig s.context c h.reachable at e;
          known = λ j k. ap (has_key j) q.1 ∙ h.known j k;
        }
        on_outcome a at aborted e q = absurd q
        on_outcome a at (exited n) e q = absurd q
        on_outcome a at undefined e q = b refl

  IsDump-of : (pid sig : ℕ) (core : Bool) → core ≡ true → IsDump (changed pid (signaled sig core))
  IsDump-of pid sig true e = tt
  IsDump-of pid sig false e = absurd (ground arith)

  pub on_wait-Fine :
      (cfg : Config) (round : Round) (w : Wait) (s : Tracer)
      → Ok s
      → Promise round s.context s.syscall_state_map w
      → (IsDump w → B)
      → Goes B Ok (on_wait cfg round w s)
  unfolding on_wait on_status
  on_wait-Fine cfg round (changed pid (stopped sig event)) s h p b =
      on_stop-Fine cfg round pid sig event s h p
  on_wait-Fine cfg round (changed pid (signaled sig core)) s h p b =
      calls-Goes B Ok _ s _ (on_exit cfg round pid (128 + sig))
        (core_dump-Settles cfg round pid core sig s (λ e. b (IsDump-of pid sig core e)) h p)
        (λ c q. on_exit-Fine cfg round pid (128 + sig) (record s { context = c }) q p)
  on_wait-Fine cfg round (changed pid (exited_with code)) s h p b =
      on_exit-Fine cfg round pid code s h p
  on_wait-Fine cfg round (changed pid other) s h p b = refl
  on_wait-Fine cfg round interrupted s h p b = h
  on_wait-Fine cfg round no_child s h p b = h
  on_wait-Fine cfg round wait_failed s h p b = refl
