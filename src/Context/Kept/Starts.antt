-- ===== src/Context/Kept/Starts.antt =====
-- The registration of the tracee keeps the options of a context.
use optrace.Prelude.{
  ℕ, zero, suc, ◌+◌, Bool, true, false, Option, none, some, set, ◌==◌, if◌then◌else◌, inl, inr,
  Option-cases,
}
use optrace.Prelude.Maps.{has_key}
use optrace.Host.{Host}
use optrace.Utils.{my_highest_fd, Told, told, assert_fails, not_defined}
use optrace.FileState.{new_file_state}
use optrace.Options.{Options}
use optrace.Context.{Cmd, aborted, undefined, skip, assert, modify, ◌>>=◌, ◌>>◌}
use optrace.Context.Objects.{resize, modify_fds, allocate_file}
use optrace.Context.Descriptors.{read_link, fd_path}
use optrace.Context.Lifecycle.{
  new_proc_state, assign_proc, emplace_leader, is_file, fill_fds_loop, fill_fds, register_tracee,
}
use optrace.Context.Kept.{
  Keeps, Always, and_then-Keeps, if-Keeps, read_link-Keeps, assert-Keeps, new_proc_state-Keeps,
}

module _ (o : Options) where
  is_file-Keeps : (h : Host) (fd : ℕ) → Always o (is_file h fd)
  unfolding is_file
  is_file-Keeps h fd c e = elim (Option-cases (h.fd_is_file fd)) [
    | inl n ↦ rw (n, Keeps) tt
    | inr (b, s) ↦ rw (s, Keeps) e
  ]

  fill_one-Keeps :
      (h : Host) (a pid fd flags : ℕ) (rest : Cmd (Unit {0}))
      → Always o rest
      → Always o (
          read_link h (fd_path pid fd) >>= λ filename.
          allocate_file (new_file_state (h.stat filename) filename flags) >>= λ r.
          modify (modify_fds a (λ fds. set fds fd (some r))) >> rest)
  unfolding allocate_file modify_fds
  fill_one-Keeps h a pid fd flags rest next c e =
      and_then-Keeps o (read_link h (fd_path pid fd) c) _ (read_link-Keeps o h (fd_path pid fd) c e)
        (λ name d same. next _ same)

  fill_fds_loop-Keeps : (h : Host) (a pid n : ℕ) → Always o (fill_fds_loop h a pid n)
  unfolding fill_fds_loop
  fill_fds_loop-Keeps h a pid zero = (λ c e. e)
  fill_fds_loop-Keeps h a pid (suc fd) = on (fill_fds_loop-Keeps h a pid fd) (h.fd_flags fd)
    where
      filled : ℕ → Cmd (Unit {0})
      filled flags = read_link h (fd_path pid fd) >>= λ filename.
          allocate_file (new_file_state (h.stat filename) filename flags) >>= λ r.
          modify (modify_fds a (λ fds. set fds fd (some r))) >> fill_fds_loop h a pid fd

      of_regular :
          Always o (fill_fds_loop h a pid fd)
          → (flags : ℕ) (regular : Bool)
          → Always o (elim regular as (λ _. Cmd (Unit {0})) [
            | false ↦ fill_fds_loop h a pid fd
            | true ↦ filled flags
          ])
      of_regular next flags false = next
      of_regular next flags true = fill_one-Keeps h a pid fd flags (fill_fds_loop h a pid fd) next

      on :
          Always o (fill_fds_loop h a pid fd)
          → (flags : Option ℕ)
          → Always o (elim flags as (λ _. Cmd (Unit {0})) [
            | none ↦ fill_fds_loop h a pid fd
            | some flags ↦ is_file h fd >>= λ regular. elim regular as (λ _. Cmd (Unit {0})) [
              | false ↦ fill_fds_loop h a pid fd
              | true ↦ filled flags
            ]
          ])
      on next none c e = next c e
      on next (some flags) c e =
          and_then-Keeps o (is_file h fd c) _ (is_file-Keeps h fd c e) (of_regular next flags)

  fill_fds-Keeps : (h : Host) (a pid : ℕ) → Always o (fill_fds h a pid)
  unfolding fill_fds modify_fds
  fill_fds-Keeps h a pid = on (my_highest_fd h)
    where
      filled : ℕ → Cmd (Unit {0})
      filled n =
          modify (modify_fds a (λ fds. resize fds (n + 1)))
          >> (if n == 0 then (λ c. undefined) else fill_fds_loop h a pid (n + 1))

      on :
          (t : Told (Option ℕ))
          → Always o (elim t as (λ _. Cmd (Unit {0})) [
            | assert_fails ↦ (λ c. aborted)
            | not_defined ↦ (λ c. undefined)
            | told fd ↦ elim fd as (λ _. Cmd (Unit {0})) [ none ↦ skip | some n ↦ filled n ]
          ])
      on assert_fails c e = tt
      on not_defined c e = tt
      on (told none) c e = e
      on (told (some n)) c e =
          if-Keeps o (n == 0) (λ c. undefined) (fill_fds_loop h a pid (n + 1)) (λ d same. tt)
            (fill_fds_loop-Keeps h a pid (n + 1)) _ e

  pub register_tracee-Keeps : (h : Host) (pid : ℕ) → Always o (register_tracee h pid)
  unfolding register_tracee
  register_tracee-Keeps h pid c e =
      and_then-Keeps o (assert (if has_key pid c.proc_map then false else true) c) _
        (assert-Keeps o (if has_key pid c.proc_map then false else true) c e)
        λ x c1 e1.
          and_then-Keeps o (new_proc_state h pid 0 c1)
            (λ a. modify (assign_proc pid a) >> (modify (emplace_leader pid) >> fill_fds h a pid))
            (new_proc_state-Keeps o h pid 0 c1 e1)
            (λ a d same. fill_fds-Keeps h a pid (emplace_leader pid (assign_proc pid a d)) same)
