-- ===== src/Context/Forks.antt =====
-- `RegisterProcess` and `RegisterThread` on a known parent.
use optrace.Prelude.{
  ℕ, ◌<◌, ◌≡◌, refl, ap, subst, ◌∙◌, inl, inr, true, false, Option, none, some, List, length, take,
  ◌==◌, if◌then◌else◌, arith, Bool-cases, eq_of_==,
}
use optrace.Prelude.Maps.{find, insert, has_key, member, find-insert, member-emplace}
use optrace.Host.{Host}
use optrace.Types.{ProcState}
use optrace.Context.{Context, Cmd, done, and_then, assert}
use optrace.Context.Objects.{fds_of, update_fds, modify_fds, get_highest_fd, get_proc_state}
use optrace.Context.Lifecycle.{
  copy_slots, new_proc_state, register_process, register_thread, always, assign_proc,
  emplace_leader,
}
use optrace.Context.WellFormed.{HasLeader, IsWellFormed, is_mapped_of_find}
use optrace.Context.Steps.{and_then-done, get_proc_state-some}
use optrace.Context.Enrol.{modify_last, is_mapped-insert, enrolled, enrolled-IsWellFormed}
use optrace.Context.Live.{IsLive}
use optrace.Context.Copies.{
  Copied, new_proc_state-done, with_proc, copied_fds, copied_fds-Copied, child_data,
  child_data-IsWellFormed, child_below,
}

module _ (h : Host) (parent child a : ℕ) (c : Context) (wf : IsWellFormed c)
    (known : find parent c.proc_map ≡ some a) (fresh : find child c.proc_map ≡ none) where
  parent_fds : ProcState → List (Option ℕ)
  parent_fds = copied_fds h parent a c wf known false always

  parent_data :
      (p : ProcState)
      → Copied (with_proc c p) (copy_slots h always (parent_fds p) (with_proc c p))
      → Context
  unfolding parent_fds
  parent_data = child_data h parent a c wf known false always

  -- The last steps of `RegisterProcess`, and the steps from the copying on.
  abbrev finish : ℕ → List (Option ℕ) → Cmd (Unit {0})
  finish n fds d = done tt (assign_proc child n (emplace_leader child (modify_fds n (λ _. fds) d)))

  abbrev copying : ℕ → Cmd (Unit {0})
  copying n d =
      let pfds = fds_of a d.procs in
      and_then (copy_slots h always (take (get_highest_fd d.files pfds false) pfds) d) (finish n)

  registered :
      (p : ProcState)
      (k : Copied (with_proc c p) (copy_slots h always (parent_fds p) (with_proc c p)))
      → Context
  unfolding child_data parent_data parent_fds
  registered p k =
      enrolled (parent_data p k) (child_data-IsWellFormed h parent a c wf known false always p k)
        child (length c.procs) fresh (child_below h parent a c wf known false always p k)

  register_process-run :
      (p : ProcState)
      (k : Copied (with_proc c p) (copy_slots h always (parent_fds p) (with_proc c p)))
      → new_proc_state h child parent c ≡ done (length c.procs) (with_proc c p)
      → register_process h parent child c ≡ done tt (registered p k)
  unfolding register_process registered parent_data child_data parent_fds copied_fds modify_fds
  register_process-run p k made =
      let absent : (if has_key child c.proc_map then false else true) ≡ true = ground arith in
      and_then-done (assert (if has_key child c.proc_map then false else true) c) _
        (ap (λ b. assert b c) absent)
      ∙ and_then-done (get_proc_state parent c) _ (get_proc_state-some parent a c known)
      ∙ and_then-done (new_proc_state h child parent c) copying made
      ∙ and_then-done (copy_slots h always (parent_fds p) (with_proc c p)) (finish (length c.procs))
          k.run
      ∙ ap (λ ps. done tt (record (registered p k) { procs = ps }))
          (modify_last c.procs p (update_fds (λ _. k.fds)))

  -- In a well-formed context that knows the parent and not the child, `RegisterProcess` returns, and
  -- the context is well-formed again and knows the child, as a leader with data of its own; nothing
  -- is reported, and the entries of the others stay.
  pub register_process-IsWellFormed :
      (c' : Context) × (register_process h parent child c ≡ done tt c')
      × IsWellFormed c'
      × (find child c'.proc_map ≡ some (length c.procs))
      × (member child c'.group_leaders ≡ true)
      × (c'.file_storage ≡ c.file_storage)
      × (c'.proc_map ≡ insert child (length c.procs) c.proc_map)
  unfolding registered parent_data child_data parent_fds copied_fds
  register_process-IsWellFormed =
      let (p, made) = new_proc_state-done h child parent c in
      let k = copied_fds-Copied h parent a c wf known false always p in
      (
        registered p k,
        register_process-run p k made,
        enrolled-IsWellFormed (parent_data p k)
            (child_data-IsWellFormed h parent a c wf known false always p k) child (length c.procs)
            fresh (child_below h parent a c wf known false always p k),
        ground (arith, find-insert child child (length c.procs) c.proc_map),
        ground (arith, member-emplace child child c.group_leaders),
        refl,
        refl,
      )

-- `RegisterThread` on a live thread, with a new id: the two share the data, both are live, and
-- the other entries stay.
pub register_thread-IsLive :
    (pid thread a : ℕ) (c : Context)
    → IsLive pid a c
    → find thread c.proc_map ≡ none
    → (c' : Context) × (register_thread pid thread c ≡ done tt c')
      × IsLive pid a c'
      × IsLive thread a c'
      × (c'.proc_map ≡ insert thread a c.proc_map)
unfolding register_thread
register_thread-IsLive pid thread a c live fresh = (
  assign_proc thread a c,
  and_then-done (get_proc_state pid c) _ (get_proc_state-some pid a c live.known),
  with_known pid (kept pid a live.known),
  with_known thread (ground (arith, find-insert thread thread a c.proc_map)),
  refl,
)
  where
    kept : (l b : ℕ) → find l c.proc_map ≡ some b → find l (insert thread a c.proc_map) ≡ some b
    kept l b e = elim (Bool-cases (thread == l)) [
      | inr n ↦ ground (arith, find-insert thread l a c.proc_map)
      | inl same ↦ absurd (ground (arith, ap (λ k. find k c.proc_map) (eq_of_== thread l same)))
    ]

    keeps_leader : (b : ℕ) → HasLeader b c → HasLeader b (assign_proc thread a c)
    keeps_leader b h = let (l, leads, e) = h in (l, leads, kept l b e)

    well : IsWellFormed (assign_proc thread a c)
    well = record {
      files = live.well_formed.files;
      procs = λ b m. elim (is_mapped-insert b thread a c.proc_map m) [
        | inl e ↦
            subst (λ n. n < length c.procs) e
              (live.well_formed.procs a (is_mapped_of_find pid a c.proc_map live.known))
        | inr old ↦ live.well_formed.procs b old
      ];
      led = λ b m. elim (is_mapped-insert b thread a c.proc_map m) [
        | inl e ↦ inl (keeps_leader b (subst (λ n. HasLeader n c) e live.leader))
        | inr old ↦ elim (live.well_formed.led b old) [
          | inl l ↦ inl (keeps_leader b l)
          | inr empty ↦ inr empty
        ]
      ];
      leaders =
          λ l m. ground (arith, find-insert thread l a c.proc_map, live.well_formed.leaders l);
    }

    with_known :
        (l : ℕ) → find l (insert thread a c.proc_map) ≡ some a → IsLive l a (assign_proc thread a c)
    with_known l e = record {
      well_formed = well;
      known = e;
      leader = keeps_leader a live.leader;
      counted = live.counted;
    }
