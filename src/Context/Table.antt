-- ===== src/Context/Table.antt =====
-- System calls leave the table of processes and the options alone.
use optrace.Prelude.{
  ℕ, ◌≡◌, refl, Bool, true, false, Option, none, some, List, [], ◌∷◌, set, get_elem?, ◌==◌,
  if◌then◌else◌, Text, Bool-cases, Option-cases, inl, inr, ◌∙◌,
}
use optrace.Prelude.Int.{is_zero}
use optrace.Host.{Host}
use optrace.Abi.{Registers}
use optrace.Options.{Options}
use optrace.FileState.{
  FileState, enroll, enroll_no_shift, set_curr_pos, set_flags, set_cloexec_flag,
}
use optrace.Types.{ProcInfoPtr}
use optrace.Context.{
  Context, Cmd, Outcome, done, aborted, exited, undefined, and_then, pure, modify, skip, ◌>>=◌,
  ◌>>◌,
}
use optrace.Context.Objects.{
  get_proc_state, fds_of, slot, modify_fds, modify_file, allocate_file, report_file, torn_down,
  tear_down_fd, use_count,
}
use optrace.Context.Descriptors.{
  on_open_file, op_write_change_offset, op_write_no_offset_change, op_resize, op_seek, op_set_flag,
  op_open_write_file, op_open_file, op_close, op_dup, op_dup2, op_dup3, share_slot, set_cloexec_at,
  grow, read_link, fd_path, process_interruption_target, opens_for_writing, get_proc_info,
  proc_info_of, cloexec_of,
}
use optrace.Context.Syscalls.{
  Action, write_change_offset, write_no_offset_change, open_write_file, open_file, close, dup, dup2,
  dup3, resize, seek, set_flag, nothing, perform, decode, syscall_exit,
}

-- The table of a context, and its options.
abbrev pub view : Context → List (ℕ × ℕ) × Options
view c = (c.proc_map, c.options)

-- Where a call returns, the table and the options are `m`.
abbrev pub Leaves {ℓ} : {A : Type ℓ} → List (ℕ × ℕ) × Options → Outcome A → Type 0
Leaves m (done x c) = view c ≡ m
Leaves m aborted = Unit
Leaves m (exited n) = Unit
Leaves m undefined = Unit

Leaves-and_then {ℓ κ} :
    {A : Type ℓ} {B : Type κ} (m : List (ℕ × ℕ) × Options) (o : Outcome A) (k : A → Cmd B)
    → Leaves m o
    → ((x : A) (c : Context) → view c ≡ m → Leaves m (k x c))
    → Leaves m (and_then o k)
Leaves-and_then m (done x c) k h next = next x c h
Leaves-and_then m aborted k h next = tt
Leaves-and_then m (exited n) k h next = tt
Leaves-and_then m undefined k h next = tt

module _ (m : List (ℕ × ℕ) × Options) where
  pub get_proc_state-Leaves : (pid : ℕ) (c : Context) → view c ≡ m → Leaves m (get_proc_state pid c)
  unfolding get_proc_state
  get_proc_state-Leaves pid c e = elim (Option-cases (optrace.Prelude.Maps.find pid c.proc_map)) [
    | inl n ↦ rw (n, Leaves) tt
    | inr (a, s) ↦ rw (s, Leaves) e
  ]

  pub get_proc_info-Leaves : (a : ℕ) (c : Context) → view c ≡ m → Leaves m (get_proc_info a c)
  unfolding get_proc_info
  get_proc_info-Leaves a c e = elim (Option-cases (proc_info_of a c)) [
    | inl n ↦ rw (n, Leaves) tt
    | inr (i, s) ↦ rw (s, Leaves) e
  ]

  view-report_file :
      (r : ℕ) (pinfo : ProcInfoPtr) (c : Context) → view (report_file r pinfo c) ≡ view c
  unfolding report_file
  view-report_file r pinfo c = elim (Option-cases (get_elem? c.files r)) [
    | inl n ↦ rw (n, report_file) refl
    | inr (s, at) ↦ rw (at, report_file) refl
  ]

  view-torn_down :
      (a fd r : ℕ) (pinfo : ProcInfoPtr) (c : Context) → view (torn_down a fd r pinfo c) ≡ view c
  unfolding torn_down modify_fds
  view-torn_down a fd r pinfo c = elim (Bool-cases (use_count c r == 1)) [
    | inr more ↦ rw more refl
    | inl last ↦ rw last (view-report_file r pinfo c)
  ]

  pub tear_down_fd-Leaves :
      (a fd : ℕ) (pinfo : ProcInfoPtr) (c : Context)
      → view c ≡ m
      → Leaves m (tear_down_fd a fd pinfo c)
  unfolding tear_down_fd
  tear_down_fd-Leaves a fd pinfo c e = elim (Option-cases (slot (fds_of a c.procs) fd)) [
    | inl n ↦ rw (n, Leaves) tt
    | inr (r, s) ↦ rw (s, Leaves) (view-torn_down a fd r pinfo c ∙ e)
  ]

  -- What is done with a slot, if it holds a pointer.
  at_slot-Leaves {ℓ} :
      {A : Type ℓ} (p : Option ℕ) (empty : Cmd A) (full : ℕ → Cmd A) (c : Context)
      → Leaves m (empty c)
      → ((r : ℕ) → Leaves m (full r c))
      → Leaves m ((elim p as (λ _. Cmd A) [ none ↦ empty | some r ↦ full r ]) c)
  at_slot-Leaves none empty full c h k = h
  at_slot-Leaves (some r) empty full c h k = k r

  on_open_file-Leaves :
      (pid fd : ℕ) (f : FileState → FileState) (c : Context)
      → view c ≡ m
      → Leaves m (on_open_file pid fd f c)
  unfolding on_open_file modify_file
  on_open_file-Leaves pid fd f c e =
      Leaves-and_then m (get_proc_state pid c) _ (get_proc_state-Leaves pid c e) (λ a d same.
        at_slot-Leaves (slot (fds_of a d.procs) fd) skip (λ r. modify (modify_file r f)) d same
          (λ r. same))

  op_close-Leaves : (pid fd : ℕ) (c : Context) → view c ≡ m → Leaves m (op_close pid fd c)
  unfolding op_close
  op_close-Leaves pid fd c e =
      Leaves-and_then m (get_proc_state pid c) _ (get_proc_state-Leaves pid c e) (λ a d same.
        at_slot-Leaves (slot (fds_of a d.procs) fd) skip
          (λ r. get_proc_info a >>= tear_down_fd a fd) d same
          (λ r.
            Leaves-and_then m (get_proc_info a d) (tear_down_fd a fd)
              (get_proc_info-Leaves a d same) (λ i b here. tear_down_fd-Leaves a fd i b here)))

  share_slot-Leaves :
      (a oldfd newfd : ℕ) (c : Context) → view c ≡ m → Leaves m (share_slot a oldfd newfd c)
  unfolding share_slot modify_fds
  share_slot-Leaves a oldfd newfd c e =
      at_slot-Leaves (slot (fds_of a c.procs) oldfd) (pure false)
        (λ r. modify (modify_fds a (λ fds. set (grow newfd fds) newfd (some r))) >> pure true) c e
        (λ r. e)

  op_dup2-Leaves :
      (pid oldfd newfd : ℕ) (c : Context) → view c ≡ m → Leaves m (op_dup2 pid oldfd newfd c)
  unfolding op_dup2
  op_dup2-Leaves pid oldfd newfd c e =
      Leaves-and_then m (get_proc_state pid c) _ (get_proc_state-Leaves pid c e) (λ a d same.
        elim (Bool-cases (oldfd == newfd)) [
          | inl t ↦ rw t same
          | inr n ↦ rw n (
              Leaves-and_then m
                ((elim (slot (fds_of a d.procs) newfd) as (λ _. Cmd (Unit {0})) [
                  | none ↦ skip
                  | some r ↦ op_close pid newfd
                ])
                  d)
                (λ _. share_slot a oldfd newfd)
                (at_slot-Leaves (slot (fds_of a d.procs) newfd) skip (λ r. op_close pid newfd) d
                  same (λ r. op_close-Leaves pid newfd d same))
                (λ _ b here. share_slot-Leaves a oldfd newfd b here))
        ])

  set_cloexec_at-Leaves :
      (pid fd : ℕ) (on : Bool) (c : Context) → view c ≡ m → Leaves m (set_cloexec_at pid fd on c)
  unfolding set_cloexec_at modify_file
  set_cloexec_at-Leaves pid fd on c e =
      Leaves-and_then m (get_proc_state pid c) _ (get_proc_state-Leaves pid c e) (λ a d same.
        at_slot-Leaves (slot (fds_of a d.procs) fd) (λ c. undefined)
          (λ r. modify (modify_file r (set_cloexec_flag on))) d tt (λ r. same))

  op_dup3-Leaves :
      (pid oldfd newfd flags : ℕ) (c : Context)
      → view c ≡ m
      → Leaves m (op_dup3 pid oldfd newfd flags c)
  unfolding op_dup3 op_dup
  op_dup3-Leaves pid oldfd newfd flags c e =
      Leaves-and_then m (op_dup2 pid oldfd newfd c) _ (op_dup2-Leaves pid oldfd newfd c e) after
    where
      after :
          (shared : Bool) (d : Context)
          → view d ≡ m
          → Leaves m (
              (if shared
                  then set_cloexec_at pid newfd (cloexec_of flags) >> pure true
                  else pure false)
                d)
      after true d same =
          Leaves-and_then m (set_cloexec_at pid newfd (cloexec_of flags) d) _
            (set_cloexec_at-Leaves pid newfd (cloexec_of flags) d same) (λ _ b here. here)
      after false d same = same

  pub read_link-Leaves :
      (h : Host) (name : Text) (c : Context) → view c ≡ m → Leaves m (read_link h name c)
  unfolding read_link
  read_link-Leaves h name c e = elim (Option-cases (h.read_link name)) [
    | inl n ↦ rw (n, Leaves) tt
    | inr (target, s) ↦ rw (s, Leaves) e
  ]

  signalled-Leaves :
      (unset : Bool) (h : Host) (pid : ℕ) (name : Text) (c : Context)
      → view c ≡ m
      → Leaves m ((if unset then skip else process_interruption_target h pid name) c)
  unfolding process_interruption_target
  signalled-Leaves true h pid name c e = e
  signalled-Leaves false h pid name c e =
      elim (Bool-cases (h.fnmatch c.options.interruption_target name)) [
        | inl t ↦ rw t e
        | inr n ↦ rw n e
      ]

  op_open_write_file-Leaves :
      (h : Host) (pid fd flags : ℕ) (c : Context)
      → view c ≡ m
      → Leaves m (op_open_write_file h pid fd flags c)
  unfolding op_open_write_file allocate_file modify_fds
  op_open_write_file-Leaves h pid fd flags c e =
      Leaves-and_then m (get_proc_state pid c) _ (get_proc_state-Leaves pid c e) (λ a d same.
        Leaves-and_then m (read_link h (fd_path pid fd) (modify_fds a (grow fd) d)) _
          (read_link-Leaves h (fd_path pid fd) (modify_fds a (grow fd) d) same)
          (λ name b here.
            Leaves-and_then m
              ((if is_zero b.options.interruption_signal
                  then skip
                  else process_interruption_target h pid name)
                b)
              _ (signalled-Leaves (is_zero b.options.interruption_signal) h pid name b here)
              (λ _ x last. last)))

  op_open_file-Leaves :
      (h : Host) (pid fd flags : ℕ) (c : Context)
      → view c ≡ m
      → Leaves m (op_open_file h pid fd flags c)
  unfolding op_open_file
  op_open_file-Leaves h pid fd flags c e = elim (Bool-cases (opens_for_writing flags)) [
    | inl t ↦ rw t (op_open_write_file-Leaves h pid fd flags c e)
    | inr n ↦ rw n e
  ]

  module _ (h : Host) (pid : ℕ) (c : Context) (e : view c ≡ m) where
    forget-Leaves : (o : Outcome Bool) → Leaves m o → Leaves m (and_then o (λ _. skip))
    forget-Leaves o k = Leaves-and_then m o _ k (λ _ d same. same)

    perform-Leaves : (act : Action) → Leaves m (perform h pid act c)
    unfolding perform op_dup op_write_change_offset op_write_no_offset_change op_resize op_seek
        op_set_flag
    perform-Leaves (write_change_offset fd n) = on_open_file-Leaves pid fd (enroll n) c e
    perform-Leaves (write_no_offset_change fd n offset) =
        on_open_file-Leaves pid fd (enroll_no_shift n offset) c e
    perform-Leaves (open_write_file fd flags) = op_open_write_file-Leaves h pid fd flags c e
    perform-Leaves (open_file fd flags) = op_open_file-Leaves h pid fd flags c e
    perform-Leaves (close fd) = op_close-Leaves pid fd c e
    perform-Leaves (dup fd newfd) = forget-Leaves _ (op_dup2-Leaves pid fd newfd c e)
    perform-Leaves (dup2 oldfd newfd) = forget-Leaves _ (op_dup2-Leaves pid oldfd newfd c e)
    perform-Leaves (dup3 oldfd newfd flags) =
        forget-Leaves _ (op_dup3-Leaves pid oldfd newfd flags c e)
    perform-Leaves (resize fd size) = on_open_file-Leaves pid fd (enroll_no_shift size 0) c e
    perform-Leaves (seek fd pos) = on_open_file-Leaves pid fd (set_curr_pos pos) c e
    perform-Leaves (set_flag fd flags) = on_open_file-Leaves pid fd (set_flags flags) c e
    perform-Leaves nothing = e

    pub syscall_exit-Leaves : (r : Registers) → Leaves m (syscall_exit h pid r c)
    unfolding syscall_exit
    syscall_exit-Leaves r = perform-Leaves (decode r)
