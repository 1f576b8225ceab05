-- ===== src/Context/Kept.antt =====
-- The options of a context never change.
pub mod Forks
pub mod Starts
use optrace.Prelude.{
  ℕ, zero, suc, ◌+◌, ◌≡◌, ap, Bool, true, false, Option, none, some, List, [], ◌∷◌, take, length,
  get_elem?, set, ◌==◌, if◌then◌else◌, Text, inl, inr, Option-cases,
}
use optrace.Prelude.Maps.{has_key, member}
use optrace.Host.{Host}
use optrace.Utils.{my_highest_fd, Told, told, assert_fails, not_defined, get_cwd}
use optrace.Cores.{recover_core_dump_file, is_empty}
use optrace.FileState.{FileState, new_file_state, copy_file_state, get_file_length}
use optrace.Types.{ProcInfoPtr}
use optrace.Options.{Options}
use optrace.Abi.{Registers}
use optrace.Storage.{add_file_entry}
use optrace.Storage.Queue.{list_queue}
use optrace.Context.{
  Context, Cmd, Outcome, done, aborted, exited, undefined, and_then, pure, skip, assert, modify,
  ◌>>=◌, ◌>>◌,
}
use optrace.Context.Objects.{
  get_proc_state, fds_of, slot, resize, modify_fds, allocate_file, tear_down_fd, get_highest_fd,
}
use optrace.Context.Descriptors.{get_proc_info, read_link, fd_path}
use optrace.Context.Lifecycle.{
  new_proc_state, assign_proc, emplace_leader, is_file, fill_fds_loop, fill_fds, register_tracee,
  copy_slots, always, survives_exec, register_process, register_thread, tear_down_loop,
  tear_down_leader, vanish_process, register_exec, search_and_register_core_dump_file,
  register_core_dump,
}
use optrace.Context.Syscalls.{syscall_exit}
use optrace.Context.Held.{Call, run_calls}
use optrace.Context.Table.{
  Leaves, get_proc_state-Leaves, get_proc_info-Leaves, tear_down_fd-Leaves, read_link-Leaves,
  syscall_exit-Leaves,
}

-- Where a call returns, the options are `o`.
abbrev pub Keeps {ℓ} : {A : Type ℓ} → Options → Outcome A → Type 0
Keeps o (done x c) = c.options ≡ o
Keeps o aborted = Unit
Keeps o (exited n) = Unit
Keeps o undefined = Unit

-- A command that does so from every context with these options.
abbrev pub Always {ℓ} : {A : Type ℓ} → Options → Cmd A → Type 0
Always o m = (c : Context) → c.options ≡ o → Keeps o (m c)

module _ (o : Options) where
  pub Keeps-Leaves {ℓ} :
      {A : Type ℓ} (m : List (ℕ × ℕ)) (r : Outcome A) → Leaves (m, o) r → Keeps o r
  Keeps-Leaves m (done x c) h = ap (λ v. v.1) h
  Keeps-Leaves m aborted h = tt
  Keeps-Leaves m (exited n) h = tt
  Keeps-Leaves m undefined h = tt

  pub and_then-Keeps {ℓ κ} :
      {A : Type ℓ} {B : Type κ} (r : Outcome A) (k : A → Cmd B)
      → Keeps o r
      → ((x : A) → Always o (k x))
      → Keeps o (and_then r k)
  and_then-Keeps (done x c) k h next = next x c h
  and_then-Keeps aborted k h next = tt
  and_then-Keeps (exited n) k h next = tt
  and_then-Keeps undefined k h next = tt

  pub if-Keeps {ℓ} :
      {A : Type ℓ} (b : Bool) (m n : Cmd A)
      → Always o m
      → Always o n
      → Always o (if b then m else n)
  if-Keeps true m n h k = h
  if-Keeps false m n h k = k

  pub get_proc_state-Keeps : (pid : ℕ) → Always o (get_proc_state pid)
  get_proc_state-Keeps pid c e =
      Keeps-Leaves c.proc_map (get_proc_state pid c)
        (get_proc_state-Leaves (c.proc_map, o) pid c (ap (λ p. (c.proc_map, p)) e))

  pub get_proc_info-Keeps : (a : ℕ) → Always o (get_proc_info a)
  get_proc_info-Keeps a c e =
      Keeps-Leaves c.proc_map (get_proc_info a c)
        (get_proc_info-Leaves (c.proc_map, o) a c (ap (λ p. (c.proc_map, p)) e))

  pub tear_down_fd-Keeps : (a fd : ℕ) (pinfo : ProcInfoPtr) → Always o (tear_down_fd a fd pinfo)
  tear_down_fd-Keeps a fd pinfo c e =
      Keeps-Leaves c.proc_map (tear_down_fd a fd pinfo c)
        (tear_down_fd-Leaves (c.proc_map, o) a fd pinfo c (ap (λ p. (c.proc_map, p)) e))

  pub read_link-Keeps : (h : Host) (name : Text) → Always o (read_link h name)
  read_link-Keeps h name c e =
      Keeps-Leaves c.proc_map (read_link h name c)
        (read_link-Leaves (c.proc_map, o) h name c (ap (λ p. (c.proc_map, p)) e))

  pub syscall_exit-Keeps : (h : Host) (pid : ℕ) (r : Registers) → Always o (syscall_exit h pid r)
  syscall_exit-Keeps h pid r c e =
      Keeps-Leaves c.proc_map (syscall_exit h pid r c)
        (syscall_exit-Leaves (c.proc_map, o) h pid c (ap (λ p. (c.proc_map, p)) e) r)

  pub run_calls-Keeps : (ks : List Call) → Always o (run_calls ks)
  unfolding run_calls
  run_calls-Keeps [] c e = e
  run_calls-Keeps (k ∷ ks) c e =
      and_then-Keeps (syscall_exit k.host k.thread k.registers c) _
        (syscall_exit-Keeps k.host k.thread k.registers c e) (λ x. run_calls-Keeps ks)

  pub assert-Keeps : (b : Bool) → Always o (assert b)
  assert-Keeps true c e = e
  assert-Keeps false c e = tt

  pub new_proc_state-Keeps : (h : Host) (pid ppid : ℕ) → Always o (new_proc_state h pid ppid)
  unfolding new_proc_state
  new_proc_state-Keeps h pid ppid c e = e

  pub register_thread-Keeps : (pid thread : ℕ) → Always o (register_thread pid thread)
  unfolding register_thread
  register_thread-Keeps pid thread c e =
      and_then-Keeps (get_proc_state pid c) _ (get_proc_state-Keeps pid c e) (λ a d same. same)
