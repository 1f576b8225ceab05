-- ===== src/Context/Descriptors.antt =====
-- The `Op…` methods: what a finished system call does to a descriptor of a process.
use optrace.Prelude.{
  ℕ, ◌+◌, Bool, true, false, not, ◌||◌, Option, none, some, List, ◌∷◌, ◌++◌, Text, text, length,
  get_elem?, set, leb, ◌==◌, if◌then◌else◌, bit_and,
}
use optrace.Prelude.Int.{is_zero}
use optrace.Host.{Host}
use optrace.Utils.{decimal, proc_path}
use optrace.FileState.{
  FileState, new_file_state, enroll, enroll_no_shift, set_curr_pos, set_flags, set_cloexec_flag,
  o_cloexec,
}
use optrace.Types.{ProcInfoPtr}
use optrace.Context.{Context, Cmd, done, exited, undefined, pure, gets, modify, skip, ◌>>=◌, ◌>>◌}
use optrace.Context.Objects.{
  get_proc_state, fds_of, slot, resize, modify_fds, modify_file, allocate_file, tear_down_fd,
}

-- `if (fds.size() > fd && !!fds[fd]) fds[fd]->method(...)`.
unfoldable pub on_open_file : ℕ → ℕ → (FileState → FileState) → Cmd (Unit {0})
unfolding get_proc_state modify_file
on_open_file pid fd f = do
  a ← get_proc_state pid
  p ← gets (λ c. slot (fds_of a c.procs) fd)
  elim p [ none ↦ skip | some r ↦ modify (modify_file r f) ]

unfoldable pub op_write_change_offset : ℕ → ℕ → ℕ → Cmd (Unit {0})
unfolding on_open_file
op_write_change_offset pid fd offset = on_open_file pid fd (enroll offset)

unfoldable pub op_write_no_offset_change : ℕ → ℕ → ℕ → ℕ → Cmd (Unit {0})
unfolding on_open_file
op_write_no_offset_change pid fd nbytes offset = on_open_file pid fd (enroll_no_shift nbytes offset)

unfoldable pub op_resize : ℕ → ℕ → ℕ → Cmd (Unit {0})
unfolding on_open_file
op_resize pid fd size = on_open_file pid fd (enroll_no_shift size 0)

unfoldable pub op_seek : ℕ → ℕ → ℕ → Cmd (Unit {0})
unfolding on_open_file
op_seek pid fd pos = on_open_file pid fd (set_curr_pos pos)

unfoldable pub op_set_flag : ℕ → ℕ → ℕ → Cmd (Unit {0})
unfolding on_open_file
op_set_flag pid fd flags = on_open_file pid fd (set_flags flags)

-- `if (fd >= fds.size()) fds.resize(fd + 1);`, for a descriptor that is an `int`, for which this neither wraps
-- nor throws.
abbrev pub grow : ℕ → List (Option ℕ) → List (Option ℕ)
grow fd fds = if leb (length fds) fd then resize fds (fd + 1) else fds

-- `ReadLink`: a link that cannot be read ends the tracer with status 2.
unfoldable pub read_link : Host → Text → Cmd Text
read_link h filename c = elim (h.read_link filename) [
  | none ↦ exited 2
  | some target ↦ done target c
]

-- `ProcessInterruptionTarget`: at a match the process is sent the signal.
unfoldable pub process_interruption_target : Host → ℕ → Text → Cmd (Unit {0})
process_interruption_target h pid filename c =
    if h.fnmatch c.options.interruption_target filename
    then done tt (record c { kills = (pid, c.options.interruption_signal) ∷ c.kills })
    else done tt c

-- `ss << "/proc/" << pid << "/fd/" << fd`.
abbrev pub fd_path : ℕ → ℕ → Text
fd_path pid fd = proc_path pid (text "/fd/" ++ decimal fd)

unfoldable pub op_open_write_file : Host → ℕ → ℕ → ℕ → Cmd (Unit {0})
unfolding get_proc_state modify_fds read_link process_interruption_target allocate_file
op_open_write_file h pid fd flags = do
  a ← get_proc_state pid
  modify (modify_fds a (grow fd))
  filename ← read_link h (fd_path pid fd)
  signal ← gets (λ c. c.options.interruption_signal)
  if is_zero signal then skip else process_interruption_target h pid filename
  r ← allocate_file (new_file_state (h.stat filename) filename flags)
  modify (modify_fds a (λ fds. set fds fd (some r)))

-- `O_WRONLY` and `O_RDWR` of fcntl.h.
abbrev pub o_wronly : ℕ
o_wronly = 1

abbrev pub o_rdwr : ℕ
o_rdwr = 2

-- `(flags & O_WRONLY) || (flags & O_RDWR)`.
abbrev pub opens_for_writing : ℕ → Bool
opens_for_writing flags = not (bit_and flags o_wronly == 0) || not (bit_and flags o_rdwr == 0)

unfoldable pub op_open_file : Host → ℕ → ℕ → ℕ → Cmd (Unit {0})
unfolding op_open_write_file
op_open_file h pid fd flags =
    if opens_for_writing flags then op_open_write_file h pid fd flags else skip

abbrev pub proc_info_of : ℕ → Context → Option ProcInfoPtr
proc_info_of a c = elim (get_elem? c.procs a) [ none ↦ none | some p ↦ some p.proc_info ]

-- The `ProcInfo` of a process whose data is alive.
unfoldable pub get_proc_info : ℕ → Cmd ProcInfoPtr
get_proc_info a c = elim (proc_info_of a c) [ none ↦ undefined | some i ↦ done i c ]

unfoldable pub op_close : ℕ → ℕ → Cmd (Unit {0})
unfolding get_proc_state get_proc_info tear_down_fd
op_close pid fd = do
  a ← get_proc_state pid
  p ← gets (λ c. slot (fds_of a c.procs) fd)
  elim p [ none ↦ skip | some r ↦ do pinfo ← get_proc_info a; tear_down_fd a fd pinfo ]

-- The assignment `fds[newfd] = fds[oldfd]` of `OpDup2`, if `oldfd` is open for writing; `newfd` is an `int`, as
-- for `grow`.
unfoldable pub share_slot : ℕ → ℕ → ℕ → Cmd Bool
unfolding modify_fds
share_slot a oldfd newfd = do
  p ← gets (λ c. slot (fds_of a c.procs) oldfd)
  elim p [
    | none ↦ pure false
    | some r ↦ do modify (modify_fds a (λ fds. set (grow newfd fds) newfd (some r))); pure true
  ]

unfoldable pub op_dup2 : ℕ → ℕ → ℕ → Cmd Bool
unfolding get_proc_state op_close share_slot
op_dup2 pid oldfd newfd = do
  a ← get_proc_state pid
  if oldfd == newfd then pure false else do
    p ← gets (λ c. slot (fds_of a c.procs) newfd)
    elim p [ none ↦ skip | some r ↦ op_close pid newfd ]
    share_slot a oldfd newfd

unfoldable pub op_dup : ℕ → ℕ → ℕ → Cmd Bool
unfolding op_dup2
op_dup pid fd newfd = op_dup2 pid fd newfd

-- `proc->Fds[newfd]->SetCloexecFlag(on)`, with no test of the pointer.
unfoldable pub set_cloexec_at : ℕ → ℕ → Bool → Cmd (Unit {0})
unfolding get_proc_state modify_file
set_cloexec_at pid fd on = do
  a ← get_proc_state pid
  p ← gets (λ c. slot (fds_of a c.procs) fd)
  elim p [ none ↦ (λ c. undefined) | some r ↦ modify (modify_file r (set_cloexec_flag on)) ]

-- `flags & O_CLOEXEC` as a truth value.
abbrev pub cloexec_of : ℕ → Bool
cloexec_of flags = not (bit_and flags o_cloexec == 0)

unfoldable pub op_dup3 : ℕ → ℕ → ℕ → ℕ → Cmd Bool
unfolding op_dup set_cloexec_at
op_dup3 pid oldfd newfd flags = do
  shared ← op_dup pid oldfd newfd
  if shared then set_cloexec_at pid newfd (cloexec_of flags) >> pure true else pure false
