-- ===== src/Context/Execs.antt =====
-- `RegisterExec` of a live process.
use optrace.Prelude.{
  ℕ, ◌<◌, ◌≡◌, refl, sym, ap, subst, ◌∙◌, true, Option, none, some, List, length, take, get_elem?,
  arith, ==-refl,
}
use optrace.Prelude.Int.{is_zero}
use optrace.Prelude.Maps.{find, insert, erase, find-erase, find-insert}
use optrace.Host.{Host}
use optrace.Types.{ProcState}
use optrace.Context.{Context, Cmd, done, and_then}
use optrace.Context.Objects.{fds_of, update_fds, modify_fds, get_proc_state, get_highest_fd}
use optrace.Context.Descriptors.{get_proc_info}
use optrace.Context.Lifecycle.{
  copy_slots, new_proc_state, register_exec, vanish_process, survives_exec, assign_proc,
  emplace_leader,
}
use optrace.Context.Steps.{and_then-done, get_proc_state-some, get_proc_info-some}
use optrace.Context.WellFormed.{is_mapped_of_find}
use optrace.Context.PostProcess.{Vanished, vanish_process-Vanished, lookup_proc}
use optrace.Context.Enrol.{modify_last, enrolled-IsWellFormed, enrolled-HasLeader}
use optrace.Context.Live.{IsLive}
use optrace.Context.Copies.{
  Copied, new_proc_state-done, with_proc, copied_fds, copied_fds-Copied, child_data,
  child_data-IsWellFormed, child_below,
}

module _ (h : Host) (pid a : ℕ) (c : Context) (live : IsLive pid a c) where
  abbrev finish : ℕ → Cmd (Unit {0})
  finish n d = done tt (assign_proc pid n (emplace_leader pid d))

  -- The steps of `RegisterExec` after the copying, and from it on.
  abbrev replacing : ℕ → List (Option ℕ) → Cmd (Unit {0})
  replacing n fds d = and_then (vanish_process pid (modify_fds n (λ _. fds) d)) (λ _. finish n)

  abbrev copying : ℕ → Cmd (Unit {0})
  copying n d =
      let pfds = fds_of a d.procs in
      and_then (copy_slots h survives_exec (take (get_highest_fd d.files pfds true) pfds) d)
        (replacing n)

  old_fds : ProcState → List (Option ℕ)
  old_fds = copied_fds h pid a c live.well_formed live.known true survives_exec

  new_data :
      (p : ProcState)
      → Copied (with_proc c p) (copy_slots h survives_exec (old_fds p) (with_proc c p))
      → Context
  unfolding old_fds
  new_data = child_data h pid a c live.well_formed live.known true survives_exec

  module _ (old p : ProcState)
      (k : Copied (with_proc c p) (copy_slots h survives_exec (old_fds p) (with_proc c p)))
      (at : get_elem? c.procs a ≡ some old)
      (made : new_proc_state h pid old.proc_info.info.ppid c
        ≡ done (length c.procs) (with_proc c p)) where
    register_exec-run :
        (d : Context)
        → vanish_process pid (new_data p k) ≡ done tt d
        → register_exec h pid c ≡ finish (length c.procs) d
    unfolding register_exec new_data child_data old_fds copied_fds modify_fds
    register_exec-run d gone =
        and_then-done (get_proc_state pid c) _ (get_proc_state-some pid a c live.known)
        ∙ and_then-done (get_proc_info a c) _ (get_proc_info-some a old c at)
        ∙ and_then-done (new_proc_state h pid old.proc_info.info.ppid c) copying made
        ∙ and_then-done (copy_slots h survives_exec (old_fds p) (with_proc c p))
            (replacing (length c.procs)) k.run
        ∙ ap
            (λ ps.
              and_then (vanish_process pid (record (new_data p k) { procs = ps }))
                (λ _. finish (length c.procs)))
            (modify_last c.procs p (update_fds (λ _. k.fds)))
        ∙ and_then-done (vanish_process pid (new_data p k)) (λ _. finish (length c.procs)) gone

    finish-IsLive :
        (d : Context)
        → Vanished pid (new_data p k) d
        → IsLive pid (length c.procs) (assign_proc pid (length c.procs) (emplace_leader pid d))
    unfolding new_data child_data old_fds
    finish-IsLive d v =
        let fresh : find pid d.proc_map ≡ none =
          ap (find pid) v.proc_map ∙ find-erase pid pid c.proc_map ∙ rw (==-refl pid) refl in
        let below : length c.procs < length d.procs =
          subst (λ n. length c.procs < n) (sym v.count)
            (child_below h pid a c live.well_formed live.known true survives_exec p k) in
        record {
          well_formed = enrolled-IsWellFormed d v.well_formed pid (length c.procs) fresh below;
          known = ground (arith, find-insert pid pid (length c.procs) d.proc_map);
          leader = enrolled-HasLeader d v.well_formed pid (length c.procs) fresh below;
          counted = ap is_zero v.capacity ∙ live.counted;
        }

  -- `RegisterExec` of a live process in a well-formed context whose report limit is not 0 returns, and
  -- the process is live again, with new data in place of the old; the other
  -- entries of the table stay.
  pub register_exec-IsLive :
      (c' : Context) × (register_exec h pid c ≡ done tt c')
      × IsLive pid (length c.procs) c'
      × (c'.proc_map ≡ insert pid (length c.procs) (erase pid c.proc_map))
  unfolding new_data child_data old_fds
  register_exec-IsLive =
      let m = is_mapped_of_find pid a c.proc_map live.known in
      let (old, at) = lookup_proc c.procs a (live.well_formed.procs a m) in
      let (p, made) = new_proc_state-done h pid old.proc_info.info.ppid c in
      let k = copied_fds-Copied h pid a c live.well_formed live.known true survives_exec p in
      let (d, gone, v) =
        vanish_process-Vanished pid a (new_data p k)
          (child_data-IsWellFormed h pid a c live.well_formed live.known true survives_exec p k)
          live.counted live.known in
      (
        assign_proc pid (length c.procs) (emplace_leader pid d),
        register_exec-run old p k at made d gone,
        finish-IsLive old p k at made d v,
        ap (insert pid (length c.procs)) v.proc_map,
      )
