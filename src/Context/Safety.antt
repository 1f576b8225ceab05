-- ===== src/Context/Safety.antt =====
-- Each operation on a descriptor of a live process returns, or ends the tracer because a link cannot
-- be read, and keeps the process live.
use optrace.Prelude.{
  ℕ, suc, ◌<◌, ◌≡◌, refl, sym, ap, subst, ◌∙◌, inl, inr, Bool, true, false, Option, none, some,
  List, [], ◌∷◌, ◌++◌, length, set, ◌==◌, if◌then◌else◌, arith, Bool-cases, Option-cases,
  length-append, Text,
}
use optrace.Prelude.Int.{is_zero}
use optrace.Host.{Host}
use optrace.FileState.{FileState, new_file_state, set_cloexec_flag}
use optrace.Context.{Context, Cmd, pure, modify, skip, ◌>>◌}
use optrace.Context.Objects.{
  get_proc_state, fds_of, slot, modify_fds, modify_file, allocate_file, torn_down, tear_down_fd,
}
use optrace.Context.Descriptors.{
  on_open_file, op_open_write_file, op_open_file, op_close, op_dup, op_dup2, op_dup3, share_slot,
  set_cloexec_at, grow, read_link, fd_path, process_interruption_target, opens_for_writing,
  get_proc_info, cloexec_of,
}
use optrace.Context.Steps.{and_then-done, get_proc_state-some, get_proc_info-some}
use optrace.Context.Vanish.{Closed-torn_down, lookup_file, tear_down_fd-some}
use optrace.Context.WellFormed.{is_mapped_of_find}
use optrace.Context.PostProcess.{lookup_proc}
use optrace.Context.Slots.{slot-grow, grow-enough, slot-set_self, slot_of_set}
use optrace.Context.Live.{
  IsLive, Ends, Ends-and_then, modify_file-IsLive, add_file-IsLive, Closed-IsLive, fds_of-assigned,
  assigned-IsLive,
}

abbrev pub StaysLive {ℓ} : {A : Type ℓ} → ℕ → ℕ → A → Context → Type 0
StaysLive pid a x c = IsLive pid a c

-- Status 2 is for a link that cannot be read.
abbrev pub Unreadable : Host → ℕ → Type 0
Unreadable h n = (n ≡ 2) × ((name : Text) × (h.read_link name ≡ none))

module _ (h : Host) (pid a : ℕ) where
  pub on_open_file-Ends :
      (fd : ℕ) (f : FileState → FileState) (c : Context)
      → IsLive pid a c
      → Ends (Unreadable h) (StaysLive pid a) (on_open_file pid fd f c)
  unfolding on_open_file
  on_open_file-Ends fd f c live =
      subst (Ends (Unreadable h) (StaysLive pid a))
        (sym (and_then-done (get_proc_state pid c) _ (get_proc_state-some pid a c live.known)))
        (on_slot (slot (fds_of a c.procs) fd))
    where
      on_slot :
          (p : Option ℕ)
          → Ends (Unreadable h) (StaysLive pid a) (
              (elim p as (λ _. Cmd (Unit {0})) [ none ↦ skip | some r ↦ modify (modify_file r f) ])
                c)
      on_slot none = live
      on_slot (some r) = modify_file-IsLive pid a c live r f

  pub op_close-Ends :
      (fd : ℕ) (c : Context)
      → IsLive pid a c
      → Ends (Unreadable h) (StaysLive pid a) (op_close pid fd c)
  unfolding op_close
  op_close-Ends fd c live =
      subst (Ends (Unreadable h) (StaysLive pid a))
        (sym (and_then-done (get_proc_state pid c) _ (get_proc_state-some pid a c live.known)))
        (elim (Option-cases (slot (fds_of a c.procs) fd)) [
          | inl e ↦ rw e live
          | inr (r, e) ↦
              let m = is_mapped_of_find pid a c.proc_map live.known in
              let (p, at) = lookup_proc c.procs a (live.well_formed.procs a m) in
              let (s, file) = lookup_file c.files r (live.well_formed.files a fd r e) in
              let run =
                and_then-done (get_proc_info a c) (tear_down_fd a fd) (get_proc_info-some a p c at)
                ∙ tear_down_fd-some a fd r p.proc_info c e in
              rw e (
                subst (Ends (Unreadable h) (StaysLive pid a)) (sym run) (
                  Closed-IsLive pid a c live fd (suc fd) (torn_down a fd r p.proc_info c)
                    (Closed-torn_down a fd r s p.proc_info c live.counted m e file)))
        ])

  -- Where a shared slot was written, it holds a pointer.
  unfoldable pub Shares : ℕ → Bool → Context → Type 0
  Shares newfd shared c =
      IsLive pid a c × (shared ≡ true → (r : ℕ) × (slot (fds_of a c.procs) newfd ≡ some r))

  pub shared-IsLive :
      (oldfd newfd r : ℕ) (c : Context)
      → IsLive pid a c
      → slot (fds_of a c.procs) oldfd ≡ some r
      → Shares newfd true (modify_fds a (λ fds. set (grow newfd fds) newfd (some r)) c)
  unfolding Shares
  shared-IsLive oldfd newfd r c live e = (
    assigned-IsLive pid a c live written valid,
    λ _. (
      r,
      ap (λ fds. slot fds newfd) (fds_of-assigned pid a c live written valid)
          ∙ slot-set_self (grow newfd fds) newfd r (grow-enough newfd fds),
    ),
  )
    where
      fds : List (Option ℕ)
      fds = fds_of a c.procs

      written : List (Option ℕ) → List (Option ℕ)
      written fds = set (grow newfd fds) newfd (some r)

      valid : (j q : ℕ) → slot (written fds) j ≡ some q → q < length c.files
      valid j q found = elim (slot_of_set (grow newfd fds) newfd r j q found) [
        | inl old ↦ live.well_formed.files a j q (sym (slot-grow newfd fds j) ∙ old)
        | inr new ↦ subst (λ n. n < length c.files) new (live.well_formed.files a oldfd r e)
      ]

  share_slot-Ends :
      (oldfd newfd : ℕ) (c : Context)
      → IsLive pid a c
      → Ends (Unreadable h) (Shares newfd) (share_slot a oldfd newfd c)
  unfolding share_slot Shares
  share_slot-Ends oldfd newfd c live = elim (Option-cases (slot (fds_of a c.procs) oldfd)) [
    | inl e ↦ rw e (live, λ t. absurd (ground arith))
    | inr (r, e) ↦ rw e (shared-IsLive oldfd newfd r c live e)
  ]

  pub op_dup2-Ends :
      (oldfd newfd : ℕ) (c : Context)
      → IsLive pid a c
      → Ends (Unreadable h) (Shares newfd) (op_dup2 pid oldfd newfd c)
  unfolding op_dup2 Shares
  op_dup2-Ends oldfd newfd c live =
      subst (Ends (Unreadable h) (Shares newfd))
        (sym (and_then-done (get_proc_state pid c) _ (get_proc_state-some pid a c live.known)))
        (elim (Bool-cases (oldfd == newfd)) [
          | inl same ↦ rw same (live, λ t. absurd (ground arith))
          | inr differ ↦ rw differ (elim (Option-cases (slot (fds_of a c.procs) newfd)) [
            | inl e ↦ rw e (share_slot-Ends oldfd newfd c live)
            | inr (r, e) ↦ rw e (
                Ends-and_then (Unreadable h) (StaysLive pid a) (Shares newfd) (op_close pid newfd c)
                  _ (op_close-Ends newfd c live) (λ _ d next. share_slot-Ends oldfd newfd d next))
          ])
        ])

  set_cloexec_at-Ends :
      (fd : ℕ) (on : Bool) (c : Context)
      → Shares fd true c
      → Ends (Unreadable h) (StaysLive pid a) (set_cloexec_at pid fd on c)
  unfolding set_cloexec_at Shares
  set_cloexec_at-Ends fd on c held =
      let (live, found) = held in
      let (r, e) = found refl in
      subst (Ends (Unreadable h) (StaysLive pid a))
        (sym (and_then-done (get_proc_state pid c) _ (get_proc_state-some pid a c live.known)))
        (rw e (modify_file-IsLive pid a c live r (set_cloexec_flag on)))

  pub op_dup3-Ends :
      (oldfd newfd flags : ℕ) (c : Context)
      → IsLive pid a c
      → Ends (Unreadable h) (StaysLive pid a) (op_dup3 pid oldfd newfd flags c)
  unfolding op_dup3 op_dup Shares
  op_dup3-Ends oldfd newfd flags c live =
      Ends-and_then (Unreadable h) (Shares newfd) (StaysLive pid a) (op_dup2 pid oldfd newfd c) _
        (op_dup2-Ends oldfd newfd c live) after
    where
      after :
          (shared : Bool) (d : Context)
          → Shares newfd shared d
          → Ends (Unreadable h) (StaysLive pid a) (
              (if shared
                  then set_cloexec_at pid newfd (cloexec_of flags) >> pure true
                  else pure false)
                d)
      after true d held =
          Ends-and_then (Unreadable h) (StaysLive pid a) (StaysLive pid a)
            (set_cloexec_at pid newfd (cloexec_of flags) d) _
            (set_cloexec_at-Ends newfd (cloexec_of flags) d held) (λ _ e next. next)
      after false d held = held.0

  pub open_slot-IsLive :
      (fd r : ℕ) (c : Context)
      → IsLive pid a c
      → r < length c.files
      → IsLive pid a (modify_fds a (λ fds. set fds fd (some r)) c)
  open_slot-IsLive fd r c live below =
      assigned-IsLive pid a c live (λ fds. set fds fd (some r))
        (λ j q found. elim (slot_of_set (fds_of a c.procs) fd r j q found) [
          | inl old ↦ live.well_formed.files a j q old
          | inr new ↦ subst (λ n. n < length c.files) new below
        ])

  pub grown-IsLive :
      (fd : ℕ) (c : Context) → IsLive pid a c → IsLive pid a (modify_fds a (grow fd) c)
  grown-IsLive fd c live =
      assigned-IsLive pid a c live (grow fd) (λ j q found.
        live.well_formed.files a j q (sym (slot-grow fd (fds_of a c.procs) j) ∙ found))

  pub read_link-Ends :
      (name : Text) (c : Context)
      → IsLive pid a c
      → Ends (Unreadable h) (StaysLive pid a) (read_link h name c)
  unfolding read_link
  read_link-Ends name c live = elim (Option-cases (h.read_link name)) [
    | inl e ↦ rw (e, Ends) (refl, (name, e))
    | inr (target, e) ↦ rw (e, Ends) live
  ]

  signalled-Ends :
      (name : Text) (c : Context)
      → IsLive pid a c
      → Ends (Unreadable h) (StaysLive pid a) (process_interruption_target h pid name c)
  unfolding process_interruption_target
  signalled-Ends name c live = elim (Bool-cases (h.fnmatch c.options.interruption_target name)) [
    | inl e ↦ rw e (record {
      well_formed = record {
        files = live.well_formed.files;
        procs = live.well_formed.procs;
        led = live.well_formed.led;
        leaders = live.well_formed.leaders;
      };
      known = live.known;
      leader = live.leader;
      counted = live.counted;
    })
    | inr e ↦ rw e live
  ]

  maybe_signalled-Ends :
      (unset : Bool) (name : Text) (c : Context)
      → IsLive pid a c
      → Ends
          (Unreadable h)
          (StaysLive pid a)
          ((if unset then skip else process_interruption_target h pid name) c)
  maybe_signalled-Ends true name c live = live
  maybe_signalled-Ends false name c live = signalled-Ends name c live

  pub op_open_write_file-Ends :
      (fd flags : ℕ) (c : Context)
      → IsLive pid a c
      → Ends (Unreadable h) (StaysLive pid a) (op_open_write_file h pid fd flags c)
  unfolding op_open_write_file allocate_file
  op_open_write_file-Ends fd flags c live =
      subst (Ends (Unreadable h) (StaysLive pid a))
        (sym (and_then-done (get_proc_state pid c) _ (get_proc_state-some pid a c live.known)))
        (Ends-and_then (Unreadable h) (StaysLive pid a) (StaysLive pid a)
          (read_link h (fd_path pid fd) (modify_fds a (grow fd) c)) _
          (read_link-Ends (fd_path pid fd) (modify_fds a (grow fd) c) (grown-IsLive fd c live))
          (λ name d next.
            Ends-and_then (Unreadable h) (StaysLive pid a) (StaysLive pid a)
              ((if is_zero d.options.interruption_signal
                  then skip
                  else process_interruption_target h pid name)
                d)
              _ (maybe_signalled-Ends (is_zero d.options.interruption_signal) name d next)
              (λ _ e last.
                let s = new_file_state (h.stat name) name flags in
                open_slot-IsLive fd (length e.files) (record e { files = e.files ++ s ∷ [] })
                  (add_file-IsLive pid a e last s)
                  (omega (arith, length-append e.files (s ∷ []))))))

  pub op_open_file-Ends :
      (fd flags : ℕ) (c : Context)
      → IsLive pid a c
      → Ends (Unreadable h) (StaysLive pid a) (op_open_file h pid fd flags c)
  unfolding op_open_file
  op_open_file-Ends fd flags c live = elim (Bool-cases (opens_for_writing flags)) [
    | inl e ↦ rw e (op_open_write_file-Ends fd flags c live)
    | inr e ↦ rw e live
  ]
