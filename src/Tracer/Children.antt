-- ===== src/Tracer/Children.antt =====
-- New children in `RunTracer`.
use optrace.Prelude.{
  ℕ, ◌≡◌, ap, ◌∙◌, Bool, true, false, none, some, List, length, if◌then◌else◌, arith,
}
use optrace.Prelude.Int.{is_zero}
use optrace.Prelude.Maps.{find, insert, erase, has_key}
use optrace.Host.{Host}
use optrace.Options.{Options}
use optrace.Context.{Context}
use optrace.Context.Lifecycle.{register_process, register_thread}
use optrace.Context.WellFormed.{HasLeader}
use optrace.Context.Forks.{register_process-IsWellFormed, register_thread-IsLive}
use optrace.Context.Runs.{Reachable, fork, new_thread}
use optrace.Context.Reachable.{HasFds}
use optrace.Tracer.{
  Request, restart_syscall, continue_syscall, Round, Config, Tracer, Verdict, syscall_undefined,
  resume,
}
use optrace.Tracer.Rounds.{after_event, release_child, register_child}
use optrace.Tracer.Verdicts.{Settles, Settles-done, calls-Goes, resume-Goes}
use optrace.Tracer.Protocol.{has_key-insert, IsTracked}
use optrace.Tracer.Threads.{Tracked, Fine, IsTracked-insert, IsLive-at, quiet_event-Fine}

module _ (start : Host) (opts : Options) (counted : is_zero opts.files_in_report ≡ false)
    (fds : HasFds start) (B : Type 0) where
  module _ (cfg : Config) (round : Round) (pid : ℕ) where
    -- A child that the table has gets a state, and what is left of the round goes on from there.
    release_child-Fine :
        (child : ℕ) (s : Tracer) (k : Tracer → Verdict)
        → Tracked start opts counted fds B s
        → has_key child s.context.proc_map ≡ true
        → ((t : Tracer) → Tracked start opts counted fds B t → Fine start opts counted fds B (k t))
        → Fine start opts counted fds B (release_child cfg round pid child s k)
    unfolding release_child
    release_child-Fine child s k h here next = choose (has_key child s.suspended_threads)
      where
        given : Tracer
        given = record s { syscall_state_map = insert child syscall_undefined s.syscall_state_map }

        freed : Tracer
        freed = record given { suspended_threads = erase child s.suspended_threads }

        once : IsTracked start opts s.context (insert child syscall_undefined s.syscall_state_map)
        once =
            IsTracked-insert start opts counted fds B s.context s.syscall_state_map child
              syscall_undefined here h

        after : Tracer → Verdict
        after v =
            k (record v { syscall_state_map = insert child syscall_undefined v.syscall_state_map })

        req : Request
        req = if cfg.use_sec_comp then continue_syscall child 0 else restart_syscall child 0

        choose :
            (b : Bool)
            → Fine start opts counted fds B (if b then resume round req freed after else k given)
        choose false = next given once
        choose true = resume-Goes B (Tracked start opts counted fds B) round req freed after (
            next _ (
              IsTracked-insert start opts counted fds B s.context _ child syscall_undefined here
                once))

    -- What the registration of a child leaves: a context of the run that has the child in its table.
    Joined : Context → List (ℕ × ℕ) → ℕ → Context → Type 0
    Joined c m child c' = IsTracked start opts c' m × (has_key child c'.proc_map ≡ true)

    joined :
        (c c' : Context) (m : List (ℕ × ℕ)) (child n : ℕ)
        → IsTracked start opts c m
        → Reachable start opts c'
        → c'.proc_map ≡ insert child n c.proc_map
        → Joined c m child c'
    unfolding Joined
    joined c c' m child n h reached table = (
      record {
        reachable = reached;
        known = λ j e.
            ap (has_key j) table ∙ ground (arith, has_key-insert child j n c.proc_map, h.known j e);
      },
      ap (has_key child) table ∙ ground (arith, has_key-insert child child n c.proc_map),
    )

    registered-Settles :
        (is_thread : Bool) (child a : ℕ) (s : Tracer)
        → Tracked start opts counted fds B s
        → find pid s.context.proc_map ≡ some a
        → HasLeader a s.context
        → find child s.context.proc_map ≡ none
        → Settles B (Joined s.context s.syscall_state_map child) (
            if is_thread
            then register_thread pid child s.context
            else register_process round.host pid child s.context)
    registered-Settles true child a s h at leader fresh =
        let live = IsLive-at start opts counted fds B cfg round pid s a h at leader in
        let (c, run, parent, sibling, table) =
          register_thread-IsLive pid child a s.context live fresh in
        Settles-done B (Joined s.context s.syscall_state_map child)
          (register_thread pid child s.context) c run
          (joined s.context c s.syscall_state_map child a h
            (new_thread pid child a s.context c h.reachable at leader fresh run) table)
    registered-Settles false child a s h at leader fresh =
        let live = IsLive-at start opts counted fds B cfg round pid s a h at leader in
        let (c, run, wf, entry, leads, storage, table) =
          register_process-IsWellFormed round.host pid child a s.context live.well_formed at
            fresh in
        Settles-done B (Joined s.context s.syscall_state_map child)
          (register_process round.host pid child s.context) c run
          (joined s.context c s.syscall_state_map child (length s.context.procs) h
            (fork round.host pid child a s.context c h.reachable at fresh run) table)

    pub register_child-Fine :
        (is_thread : Bool) (child a sig : ℕ) (s : Tracer)
        → Tracked start opts counted fds B s
        → find pid s.context.proc_map ≡ some a
        → HasLeader a s.context
        → find child s.context.proc_map ≡ none
        → Fine start opts counted fds B
            (register_child cfg round pid is_thread child s (after_event cfg round pid false sig))
    unfolding register_child Joined
    register_child-Fine is_thread child a sig s h at leader fresh =
        calls-Goes B (Tracked start opts counted fds B) (Joined s.context s.syscall_state_map child)
          s _ _ (registered-Settles is_thread child a s h at leader fresh)
          (λ c q.
            release_child-Fine child (record s { context = c })
              (after_event cfg round pid false sig) q.0 q.1
              (λ t here. quiet_event-Fine start opts counted fds B cfg round pid sig t here))
