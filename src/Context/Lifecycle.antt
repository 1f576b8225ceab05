-- ===== src/Context/Lifecycle.antt =====
-- How processes and threads enter and leave the context.
use optrace.Prelude.{
  ℕ, zero, suc, ◌+◌, Bool, true, false, Option, none, some, List, [], ◌∷◌, ◌++◌, text, length,
  get_elem?, set, take, ◌==◌, if◌then◌else◌,
}
use optrace.Prelude.Int.{ℤ, negsuc}
use optrace.Prelude.Maps.{insert, erase, has_key, member, emplace, remove}
use optrace.Host.{Host}
use optrace.Utils.{
  proc_path, read_file_safe, get_command_line, get_cwd, my_highest_fd, told, assert_fails,
  not_defined,
}
use optrace.Cores.{recover_core_dump_file, is_empty}
use optrace.FileState.{FileState, get_file_length, new_file_state, copy_file_state, is_cloexec_set}
use optrace.Types.{ProcInfo, ProcInfoPtr, ProcState}
use optrace.Storage.{add_file_entry}
use optrace.Storage.Queue.{list_queue}
use optrace.Report.{Printer, final_report}
use optrace.Context.{
  Context, Cmd, done, aborted, undefined, pure, gets, modify, assert, skip, and_then, ◌>>=◌, ◌>>◌,
}
use optrace.Context.Objects.{
  get_proc_state, fds_of, slot, resize, modify_fds, allocate_file, tear_down_fd, get_highest_fd,
}
use optrace.Context.Descriptors.{get_proc_info, read_link, fd_path}

-- `NewProcState`: a new object with no descriptors, and its address.
unfoldable pub new_proc_state : Host → ℕ → ℕ → Cmd ℕ
unfolding get_command_line read_file_safe proc_path
new_proc_state h pid ppid c =
    let info : ProcInfo = record {
      pid = pid;
      ppid = ppid;
      command_name =
          if c.options.search_for_core_dumps
          then read_file_safe h (proc_path pid (text "/comm")) (negsuc 0)
          else [];
      command_line = get_command_line h pid c.options.command_length_limit;
    } in
    let state : ProcState = record {
      fds = [];
      proc_info = record { address = length c.procs; info = info };
    } in
    done (length c.procs) (record c { procs = c.procs ++ state ∷ [] })

-- `ProcMap[pid] = proc`.
abbrev pub assign_proc : ℕ → ℕ → Context → Context
assign_proc pid a c = record c { proc_map = insert pid a c.proc_map }

-- `GroupLeaders.emplace(pid)`.
abbrev pub emplace_leader : ℕ → Context → Context
emplace_leader pid c = record c { group_leaders = emplace pid c.group_leaders }

-- `IsFile`, with its `assert`.
unfoldable pub is_file : Host → ℕ → Cmd Bool
is_file h fd c = elim (h.fd_is_file fd) [ none ↦ aborted | some b ↦ done b c ]

-- The loop of `FillFds`, over the descriptors below `n`, from the highest down.
unfoldable pub fill_fds_loop : Host → ℕ → ℕ → ℕ → Cmd (Unit {0})
unfolding is_file read_link allocate_file modify_fds
fill_fds_loop h a pid zero = skip
fill_fds_loop h a pid (suc fd) =
    let rest = fill_fds_loop h a pid fd in
    elim (h.fd_flags fd) [
      | none ↦ rest
      | some flags ↦ is_file h fd >>= λ regular. elim regular [
        | false ↦ rest
        | true ↦ do
          filename ← read_link h (fd_path pid fd)
          r ← allocate_file (new_file_state (h.stat filename) filename flags)
          modify (modify_fds a (λ fds. set fds fd (some r)))
          rest
      ]
    ]

-- `FillFds`. If 0 is the highest descriptor, `std::log10` of it is turned into a size, which is not
-- defined.
unfoldable pub fill_fds : Host → ℕ → ℕ → Cmd (Unit {0})
unfolding my_highest_fd fill_fds_loop modify_fds
fill_fds h a pid = elim (my_highest_fd h) [
  | assert_fails ↦ (λ c. aborted)
  | not_defined ↦ (λ c. undefined)
  | told fd ↦ elim fd [
    | none ↦ skip
    | some highest ↦ do
      modify (modify_fds a (λ fds. resize fds (highest + 1)))
      if highest == 0 then (λ c. undefined) else fill_fds_loop h a pid (highest + 1)
  ]
]

unfoldable pub register_tracee : Host → ℕ → Cmd (Unit {0})
unfolding new_proc_state fill_fds
register_tracee h pid = do
  known ← gets (λ c. has_key pid c.proc_map)
  assert (if known then false else true)
  a ← new_proc_state h pid 0
  modify (assign_proc pid a)
  modify (emplace_leader pid)
  fill_fds h a pid

-- The copying loops of `RegisterExec` and `RegisterProcess`: each pointer that `keeps` admits becomes
-- a pointer to a fresh copy of its file.
unfoldable pub copy_slots : Host → (FileState → Bool) → List (Option ℕ) → Cmd (List (Option ℕ))
unfolding allocate_file
copy_slots h keeps [] = pure []
copy_slots h keeps (none ∷ fds) = do rest ← copy_slots h keeps fds; pure (none ∷ rest)
copy_slots h keeps (some r ∷ fds) = do
  file ← gets (λ c. get_elem? c.files r)
  p ← elim file [
    | none ↦ (λ c. undefined)
    | some s ↦
        if keeps s
        then (do copy ← allocate_file (copy_file_state (h.stat s.filename) s); pure (some copy))
        else pure none
  ]
  rest ← copy_slots h keeps fds
  pure (p ∷ rest)

abbrev pub always : FileState → Bool
always s = true

abbrev pub survives_exec : FileState → Bool
survives_exec s = if is_cloexec_set s then false else true

unfoldable pub register_process : Host → ℕ → ℕ → Cmd (Unit {0})
unfolding get_proc_state new_proc_state copy_slots modify_fds get_highest_fd
register_process h parent child = do
  known ← gets (λ c. has_key child c.proc_map)
  assert (if known then false else true)
  pproc ← get_proc_state parent
  newproc ← new_proc_state h child parent
  pfds ← gets (λ c. fds_of pproc c.procs)
  highest ← gets (λ c. get_highest_fd c.files pfds false)
  fds ← copy_slots h always (take highest pfds)
  modify (modify_fds newproc (λ _. fds))
  modify (emplace_leader child)
  modify (assign_proc child newproc)

unfoldable pub register_thread : ℕ → ℕ → Cmd (Unit {0})
unfolding get_proc_state
register_thread pid thread = do a ← get_proc_state pid; modify (assign_proc thread a)

-- The loop of `VanishProcess` over the slots from `fd` on, `n` of them.
unfoldable pub tear_down_loop : ℕ → ProcInfoPtr → ℕ → ℕ → Cmd (Unit {0})
unfolding tear_down_fd
tear_down_loop a pinfo fd zero = skip
tear_down_loop a pinfo fd (suc n) = do
  p ← gets (λ c. slot (fds_of a c.procs) fd)
  elim p [ none ↦ skip | some r ↦ tear_down_fd a fd pinfo ]
  tear_down_loop a pinfo (suc fd) n

unfoldable pub tear_down_leader : ℕ → Cmd (Unit {0})
unfolding get_proc_state get_proc_info tear_down_loop
tear_down_leader pid = do
  a ← get_proc_state pid
  pinfo ← get_proc_info a
  n ← gets (λ c. length (fds_of a c.procs))
  tear_down_loop a pinfo 0 n
  modify (λ c. record c { group_leaders = remove pid c.group_leaders })

unfoldable pub vanish_process : ℕ → Cmd (Unit {0})
unfolding tear_down_leader
vanish_process pid = do
  leader ← gets (λ c. member pid c.group_leaders)
  if leader then tear_down_leader pid else skip
  known ← gets (λ c. has_key pid c.proc_map)
  assert known
  modify (λ c. record c { proc_map = erase pid c.proc_map })

unfoldable pub register_exec : Host → ℕ → Cmd (Unit {0})
unfolding get_proc_state get_proc_info new_proc_state get_highest_fd copy_slots modify_fds
    vanish_process
register_exec h pid = do
  oldproc ← get_proc_state pid
  oldinfo ← get_proc_info oldproc
  newproc ← new_proc_state h pid oldinfo.info.ppid
  oldfds ← gets (λ c. fds_of oldproc c.procs)
  highest ← gets (λ c. get_highest_fd c.files oldfds true)
  fds ← copy_slots h survives_exec (take highest oldfds)
  modify (modify_fds newproc (λ _. fds))
  vanish_process pid
  modify (emplace_leader pid)
  modify (assign_proc pid newproc)

unfoldable pub search_and_register_core_dump_file : Host → ProcInfoPtr → ℕ → Cmd (Unit {0})
unfolding recover_core_dump_file get_cwd get_file_length
search_and_register_core_dump_file h pinfo term_sig c =
    elim (recover_core_dump_file h pinfo.info.pid pinfo.info.command_name (get_cwd h) term_sig) [
      | none ↦ undefined
      | some filename ↦
          if is_empty filename
          then done tt c
          else done tt (record c {
            file_storage =
                add_file_entry list_queue
                  (record {
                    size = get_file_length (h.stat filename);
                    filename = filename;
                    proc_info = pinfo;
                  })
                  c.file_storage;
          })
    ]

unfoldable pub register_core_dump : Host → ℕ → ℕ → Cmd (Unit {0})
unfolding get_proc_state get_proc_info search_and_register_core_dump_file
register_core_dump h pid term_sig = do
  a ← get_proc_state pid
  pinfo ← get_proc_info a
  wanted ← gets (λ c. c.options.search_for_core_dumps)
  if wanted then search_and_register_core_dump_file h pinfo term_sig else skip

-- The first entry of `ProcMap` goes, if there is one, and then the loop goes on.
unfoldable pub vanish_first : Cmd (Unit {0}) → List (ℕ × ℕ) → Cmd (Unit {0})
vanish_first rest [] c = done tt c
vanish_first rest ((pid, a) ∷ m) c = and_then (vanish_process pid c) (λ _. rest)

-- The loop of `PostProcess`. Each round takes an entry out of `ProcMap`, so that as many rounds as it
-- has entries are enough. Which entry is first in an `unordered_map` is not defined: here the oldest.
unfoldable pub vanish_all : ℕ → Cmd (Unit {0})
unfolding vanish_first
vanish_all zero c = done tt c
vanish_all (suc fuel) c = vanish_first (vanish_all fuel) c.proc_map c

-- `PrintReport` at the end of `PostProcess`, if there is a report; what it prints is `final_report`.
unfoldable pub print_final : Printer → Cmd (Unit {0})
print_final p c = elim (final_report p c) [ none ↦ undefined | some t ↦ done tt c ]

-- `PostProcess`.
unfoldable pub post_process : Printer → ℤ → Cmd ℤ
unfolding vanish_all print_final
post_process p rc c =
    and_then (vanish_all (length c.proc_map) c) λ _ d. and_then (print_final p d) (λ _. pure rc)
