-- ===== src/Context/Kept/Forks.antt =====
-- Forks, execs, exits and core dumps keep the options of a context.
use optrace.Prelude.{
  ℕ, zero, suc, Bool, true, false, Option, none, some, List, [], ◌∷◌, take, length, get_elem?,
  if◌then◌else◌, Text,
}
use optrace.Prelude.Maps.{has_key, member}
use optrace.Host.{Host}
use optrace.Utils.{get_cwd}
use optrace.Cores.{recover_core_dump_file, is_empty}
use optrace.FileState.{FileState, copy_file_state, get_file_length}
use optrace.Types.{ProcInfoPtr}
use optrace.Options.{Options}
use optrace.Storage.{add_file_entry}
use optrace.Storage.Queue.{list_queue}
use optrace.Context.{
  Cmd, Outcome, done, undefined, and_then, pure, skip, assert, modify, ◌>>=◌, ◌>>◌,
}
use optrace.Context.Objects.{
  get_proc_state, fds_of, slot, modify_fds, allocate_file, tear_down_fd, get_highest_fd,
}
use optrace.Context.Descriptors.{get_proc_info}
use optrace.Context.Lifecycle.{
  new_proc_state, assign_proc, emplace_leader, copy_slots, always, survives_exec, register_process,
  tear_down_loop, tear_down_leader, vanish_process, register_exec,
  search_and_register_core_dump_file, register_core_dump,
}
use optrace.Context.Kept.{
  Keeps, Always, and_then-Keeps, if-Keeps, get_proc_state-Keeps, get_proc_info-Keeps,
  tear_down_fd-Keeps, assert-Keeps, new_proc_state-Keeps,
}

module _ (o : Options) where
  copy_slots-Keeps :
      (h : Host) (keeps : FileState → Bool) (fds : List (Option ℕ))
      → Always o (copy_slots h keeps fds)
  unfolding copy_slots allocate_file
  copy_slots-Keeps h keeps [] c e = e
  copy_slots-Keeps h keeps (none ∷ fds) c e =
      and_then-Keeps o (copy_slots h keeps fds c) _ (copy_slots-Keeps h keeps fds c e)
        (λ x d same. same)
  copy_slots-Keeps h keeps (some r ∷ fds) c e =
      after (get_elem? c.files r) (copy_slots-Keeps h keeps fds)
    where
      rest :
          Always o (copy_slots h keeps fds)
          → (p : Option ℕ) → Always o (copy_slots h keeps fds >>= λ fds'. pure (p ∷ fds'))
      rest next p d same =
          and_then-Keeps o (copy_slots h keeps fds d) _ (next d same) (λ x b here. here)

      copied : FileState → Cmd (Option ℕ)
      copied s =
          if keeps s
          then (allocate_file (copy_file_state (h.stat s.filename) s) >>= λ copy. pure (some copy))
          else pure none

      after :
          (file : Option FileState)
          → Always o (copy_slots h keeps fds)
          → Keeps o (
              and_then
                ((elim file as (λ _. Cmd (Option ℕ)) [
                  | none ↦ (λ c. undefined)
                  | some s ↦ copied s
                ])
                  c)
                (λ p. copy_slots h keeps fds >>= λ fds'. pure (p ∷ fds')))
      after none next = tt
      after (some s) next =
          and_then-Keeps o (copied s c) _
            (if-Keeps o (keeps s)
              (allocate_file (copy_file_state (h.stat s.filename) s) >>= λ copy. pure (some copy))
              (pure none) (λ d same. same) (λ d same. same) c e)
            (rest next)

  -- The end of `RegisterProcess`, from the new data on.
  abbrev copy_into : Host → (child p n : ℕ) → Cmd (Unit {0})
  copy_into h child p n c =
      and_then
        (copy_slots h always
          (take (get_highest_fd c.files (fds_of p c.procs) false) (fds_of p c.procs)) c)
        λ fds.
          modify (modify_fds n (λ _. fds))
          >> (modify (emplace_leader child) >> modify (assign_proc child n))

  copy_into-Keeps : (h : Host) (child p n : ℕ) → Always o (copy_into h child p n)
  unfolding modify_fds
  copy_into-Keeps h child p n c e =
      and_then-Keeps o
        (copy_slots h always
          (take (get_highest_fd c.files (fds_of p c.procs) false) (fds_of p c.procs)) c)
        _ (copy_slots-Keeps h always _ c e) (λ k d same. same)

  pub register_process-Keeps :
      (h : Host) (parent child : ℕ) → Always o (register_process h parent child)
  unfolding register_process
  register_process-Keeps h parent child c e =
      and_then-Keeps o (assert (if has_key child c.proc_map then false else true) c) _
        (assert-Keeps o (if has_key child c.proc_map then false else true) c e)
        λ x c1 e1.
          and_then-Keeps o (get_proc_state parent c1) _ (get_proc_state-Keeps o parent c1 e1)
            λ p c2 e2.
              and_then-Keeps o (new_proc_state h child parent c2) (copy_into h child p)
                (new_proc_state-Keeps o h child parent c2 e2) (λ n. copy_into-Keeps h child p n)

  tear_down_loop-Keeps :
      (a : ℕ) (pinfo : ProcInfoPtr) (fd n : ℕ) → Always o (tear_down_loop a pinfo fd n)
  unfolding tear_down_loop
  tear_down_loop-Keeps a pinfo fd zero c e = e
  tear_down_loop-Keeps a pinfo fd (suc n) c e =
      at (slot (fds_of a c.procs) fd) (tear_down_loop-Keeps a pinfo (suc fd) n)
    where
      at :
          (p : Option ℕ)
          → Always o (tear_down_loop a pinfo (suc fd) n)
          → Keeps o (
              and_then
                ((elim p as (λ _. Cmd (Unit {0})) [
                  | none ↦ skip
                  | some r ↦ tear_down_fd a fd pinfo
                ])
                  c)
                (λ _. tear_down_loop a pinfo (suc fd) n))
      at none next = next c e
      at (some r) next =
          and_then-Keeps o (tear_down_fd a fd pinfo c) _ (tear_down_fd-Keeps o a fd pinfo c e)
            (λ _. next)

  tear_down_leader-Keeps : (pid : ℕ) → Always o (tear_down_leader pid)
  unfolding tear_down_leader
  tear_down_leader-Keeps pid c e =
      and_then-Keeps o (get_proc_state pid c) _ (get_proc_state-Keeps o pid c e) λ a c1 e1.
        and_then-Keeps o (get_proc_info a c1) _ (get_proc_info-Keeps o a c1 e1) λ i c2 e2.
          and_then-Keeps o (tear_down_loop a i 0 (length (fds_of a c2.procs)) c2) _
            (tear_down_loop-Keeps a i 0 (length (fds_of a c2.procs)) c2 e2) (λ x d same. same)

  pub vanish_process-Keeps : (pid : ℕ) → Always o (vanish_process pid)
  unfolding vanish_process
  vanish_process-Keeps pid c e =
      and_then-Keeps o ((if member pid c.group_leaders then tear_down_leader pid else skip) c) _
        (if-Keeps o (member pid c.group_leaders) (tear_down_leader pid) skip
          (tear_down_leader-Keeps pid) (λ d same. same) c e)
        λ x c1 e1.
          and_then-Keeps o (assert (has_key pid c1.proc_map) c1) _
            (assert-Keeps o (has_key pid c1.proc_map) c1 e1) (λ x d same. same)

  -- The end of `RegisterExec`, from the new data on.
  abbrev replace_by : Host → (pid p n : ℕ) → Cmd (Unit {0})
  replace_by h pid p n c =
      and_then
        (copy_slots h survives_exec
          (take (get_highest_fd c.files (fds_of p c.procs) true) (fds_of p c.procs)) c)
        λ fds.
          modify (modify_fds n (λ _. fds))
          >> (vanish_process pid >> (modify (emplace_leader pid) >> modify (assign_proc pid n)))

  replace_by-Keeps : (h : Host) (pid p n : ℕ) → Always o (replace_by h pid p n)
  unfolding modify_fds
  replace_by-Keeps h pid p n c e =
      and_then-Keeps o
        (copy_slots h survives_exec
          (take (get_highest_fd c.files (fds_of p c.procs) true) (fds_of p c.procs)) c)
        _ (copy_slots-Keeps h survives_exec _ c e)
        λ k d same.
          and_then-Keeps o (vanish_process pid (modify_fds n (λ _. k) d)) _
            (vanish_process-Keeps pid (modify_fds n (λ _. k) d) same) (λ x d same. same)

  pub register_exec-Keeps : (h : Host) (pid : ℕ) → Always o (register_exec h pid)
  unfolding register_exec
  register_exec-Keeps h pid c e =
      and_then-Keeps o (get_proc_state pid c) _ (get_proc_state-Keeps o pid c e) λ a c1 e1.
        and_then-Keeps o (get_proc_info a c1) _ (get_proc_info-Keeps o a c1 e1) λ i c2 e2.
          and_then-Keeps o (new_proc_state h pid i.info.ppid c2) (replace_by h pid a)
            (new_proc_state-Keeps o h pid i.info.ppid c2 e2) (λ n. replace_by-Keeps h pid a n)

  search-Keeps :
      (h : Host) (pinfo : ProcInfoPtr) (term_sig : ℕ)
      → Always o (search_and_register_core_dump_file h pinfo term_sig)
  unfolding search_and_register_core_dump_file
  search-Keeps h pinfo term_sig c e =
      found (recover_core_dump_file h pinfo.info.pid pinfo.info.command_name (get_cwd h) term_sig)
    where
      found :
          (file : Option Text)
          → Keeps o (elim file as (λ _. Outcome (Unit {0})) [
            | none ↦ undefined
            | some filename ↦
                if is_empty filename
                then done tt c
                else done tt (record c {
                  file_storage =
                      add_file_entry list_queue
                        (record {
                          size = get_file_length (h.stat filename);
                          filename = filename;
                          proc_info = pinfo;
                        })
                        c.file_storage;
                })
          ])
      found none = tt
      found (some []) = e
      found (some (x ∷ xs)) = e

  pub register_core_dump-Keeps :
      (h : Host) (pid term_sig : ℕ) → Always o (register_core_dump h pid term_sig)
  unfolding register_core_dump
  register_core_dump-Keeps h pid term_sig c e =
      and_then-Keeps o (get_proc_state pid c) _ (get_proc_state-Keeps o pid c e) λ a c1 e1.
        and_then-Keeps o (get_proc_info a c1) _ (get_proc_info-Keeps o a c1 e1) λ i c2 e2.
          if-Keeps o c2.options.search_for_core_dumps
            (search_and_register_core_dump_file h i term_sig) skip (search-Keeps h i term_sig)
            (λ d same. same) c2 e2
