-- ===== src/Context/Sessions.antt =====
-- The life of an open file: opened, used, closed and reported.
use optrace.Prelude.{
  ℕ, suc, ◌+◌, ◌-◌, ◌≡◌, refl, sym, ap, subst, ◌∙◌, true, none, some, List, [], ◌∷◌, ◌++◌, Text,
  length, ◌==◌, if◌then◌else◌, arith, word, bit_and, Option,
}
use optrace.Prelude.Maps.{find}
use optrace.Abi.{Registers}
use optrace.Host.{Host}
use optrace.FileState.{
  FileState, new_file_state, get_file_length, get_output_size, is_append_set, o_append,
}
use optrace.FileState.Extents.{
  FileOp, ends, farthest, InRange, apply_all, get_output_size-apply_all,
}
use optrace.Context.{Context, Outcome, done, aborted, exited, undefined, and_then}
use optrace.Context.Objects.{fds_of, slot, torn_down, tear_down_fd, get_proc_state}
use optrace.Context.Descriptors.{
  fd_path, opens_for_writing, op_open_write_file, op_open_file, op_close, get_proc_info,
}
use optrace.Context.Counts.{cleared, slot-cleared}
use optrace.Types.{ProcState}
use optrace.Context.Steps.{and_then-done, get_proc_state-some, get_proc_info-some}
use optrace.Context.Balance.{torn_down_last, add_file_entry-output_size}
use optrace.Context.Vanish.{Closed-torn_down, tear_down_fd-some}
use optrace.Context.PostProcess.{lookup_proc}
use optrace.Context.Syscalls.{open_file, close, decode, perform, syscall_exit}
use optrace.Context.Live.{IsLive, Closed-IsLive, is_mapped-IsLive}
use optrace.Context.Held.{Call, run_calls, Held, Follows, run_calls-Held}
use optrace.Context.Opened.{op_open_write_file-Held}

-- A thread closes the descriptor: the file is reported, and the descriptor is free.
op_close-Held :
    (thread pid a fd r : ℕ) (s : FileState) (c : Context)
    → find thread c.proc_map ≡ some a
    → Held pid a fd r s c
    → (c' : Context) × (op_close thread fd c ≡ done tt c')
      × IsLive pid a c'
      × ((b j : ℕ) → slot (fds_of b c'.procs) j ≡ slot (fds_of b (cleared a fd c.procs)) j)
      × (c'.proc_map ≡ c.proc_map)
      × (word c'.file_storage.output_size ≡ word (c.file_storage.output_size + get_output_size s))
unfolding op_close
op_close-Held thread pid a fd r s c known held =
    let m = is_mapped-IsLive pid a c held.live in
    let (p, at) = lookup_proc c.procs a (held.live.well_formed.procs a m) in
    let closed =
      Closed-torn_down a fd r s p.proc_info c held.live.counted m held.pointer held.file in
    (
      torn_down a fd r p.proc_info c,
      and_then-done (get_proc_state thread c) _ (get_proc_state-some thread a c known)
          ∙ rw held.pointer (
              and_then-done (get_proc_info a c) (tear_down_fd a fd) (get_proc_info-some a p c at)
              ∙ tear_down_fd-some a fd r p.proc_info c held.pointer),
      Closed-IsLive pid a c held.live fd (suc fd) (torn_down a fd r p.proc_info c) closed,
      λ b j. ground (arith, closed.slots b j, slot-cleared c.procs a fd b j),
      closed.maps.proc_map,
      ap (λ (d : Context). word d.file_storage.output_size)
            (torn_down_last a fd r s p.proc_info c held.file held.alone)
          ∙ omega
              (arith, add_file_entry-output_size c.file_storage 0 s p.proc_info held.live.counted),
    )

then_appended :
    (ks ls : List Call) (o : Outcome (Unit {0}))
    → ((d : Context) → run_calls (ks ++ ls) d ≡ and_then (run_calls ks d) (λ _. run_calls ls))
    → and_then o (λ _. run_calls (ks ++ ls))
      ≡ and_then (and_then o (λ _. run_calls ks)) (λ _. run_calls ls)
then_appended ks ls (done x d) later = later d
then_appended ks ls aborted later = refl
then_appended ks ls (exited n) later = refl
then_appended ks ls undefined later = refl

pub run_calls-append :
    (ks ls : List Call) (c : Context)
    → run_calls (ks ++ ls) c ≡ and_then (run_calls ks c) (λ _. run_calls ls)
unfolding run_calls
run_calls-append [] ls c = refl
run_calls-append (k ∷ ks) ls c =
    then_appended ks ls (syscall_exit k.host k.thread k.registers c) (run_calls-append ks ls)

run_calls-one :
    (k : Call) (c d : Context)
    → syscall_exit k.host k.thread k.registers c ≡ done tt d
    → run_calls (k ∷ []) c ≡ done tt d
unfolding run_calls
run_calls-one k c d run = and_then-done (syscall_exit k.host k.thread k.registers c) _ run

syscall_exit-opens :
    (h : Host) (pid fd flags : ℕ) (r : Registers) (c : Context)
    → decode r ≡ open_file fd flags
    → opens_for_writing flags ≡ true
    → syscall_exit h pid r c ≡ op_open_write_file h pid fd flags c
unfolding syscall_exit perform op_open_file
syscall_exit-opens h pid fd flags r c e writable =
    ap (λ act. perform h pid act c) e ∙ rw writable refl

syscall_exit-closes :
    (h : Host) (pid fd : ℕ) (r : Registers) (c : Context)
    → decode r ≡ close fd
    → syscall_exit h pid r c ≡ op_close pid fd c
unfolding syscall_exit perform
syscall_exit-closes h pid fd r c e = ap (λ act. perform h pid act c) e

-- Where the writing of a file begins: at its end, if it was opened with `O_APPEND`.
abbrev pub first_position : ℕ → ℕ → ℕ
first_position flags size = if bit_and flags o_append == 0 then 0 else size

new_file_state_fields :
    (stat : Option ℕ) (flags : ℕ) (name : Text)
    → ((new_file_state stat name flags).max_pos ≡ 0)
      × ((new_file_state stat name flags).init_size ≡ get_file_length stat)
      × ((new_file_state stat name flags).curr_pos ≡ first_position flags (get_file_length stat))
unfolding new_file_state is_append_set
new_file_state_fields stat flags name = ground arith

grown_size :
    (stat : Option ℕ) (flags : ℕ) (name : Text) (ops : List FileOp)
    → InRange (first_position flags (get_file_length stat)) ops
    → get_output_size (apply_all ops (new_file_state stat name flags))
      ≡ farthest 0 (ends (first_position flags (get_file_length stat)) ops) - get_file_length stat
grown_size stat flags name ops fits =
    let (m, i, p) = new_file_state_fields stat flags name in
    let s = new_file_state stat name flags in
    get_output_size-apply_all ops s (subst (λ q. InRange q ops) (sym p) fits) ∙ rw (m, i, p) refl

module _ (a fd flags : ℕ) (name : Text) (c : Context) (opening closing : Call) (ks : List Call)
    (ops : List FileOp) (live : IsLive opening.thread a c)
    (opens : decode opening.registers ≡ open_file fd flags)
    (writable : opens_for_writing flags ≡ true)
    (link : opening.host.read_link (fd_path opening.thread fd) ≡ some name)
    (follows : Follows a fd c.proc_map ops ks)
    (fits : InRange (first_position flags (get_file_length (opening.host.stat name))) ops)
    (known : find closing.thread c.proc_map ≡ some a)
    (closes : decode closing.registers ≡ close fd) where
  abbrev size : ℕ
  size = get_file_length (opening.host.stat name)

  -- A live thread opens a file for writing, threads of its process then make calls on files, of which
  -- `ops` are those on the new descriptor (none of them opens, closes or duplicates a descriptor, and
  -- no written range ends past `2 ^ 64`), and one of them closes the descriptor. If the link of the
  -- descriptor could be read and the report limit is not 0, all the calls return, the descriptor is
  -- free, the others hold what they held and the process table is as before, and the total of the report has grown, modulo `2 ^ 64`,
  -- by the distance from the length that the file had to the farthest end of a range written.
  pub run_calls-session :
      (c' : Context) × (run_calls (opening ∷ ks ++ closing ∷ []) c ≡ done tt c')
      × IsLive opening.thread a c'
      × ((b j : ℕ)
          → slot (fds_of b c'.procs) j ≡ (
              if a == b
              then (if fd == j then none else slot (fds_of b c.procs) j)
              else slot (fds_of b c.procs) j))
      × (c'.proc_map ≡ c.proc_map)
      × (word c'.file_storage.output_size
          ≡ word (
              c.file_storage.output_size
              + (farthest 0 (ends (first_position flags size) ops) - size)))
  unfolding run_calls
  run_calls-session =
      let (d, opened, held, same, before) =
        op_open_write_file-Held opening.host opening.thread a fd flags name c live link in
      let (e, used, last, still, procs) =
        run_calls-Held ks ops opening.thread a fd (length c.files)
          (new_file_state (opening.host.stat name) name flags) d held
          (subst (λ m. Follows a fd m ops ks) (sym same.proc_map) follows) in
      let table = still.proc_map ∙ same.proc_map in
      let (c', closed, alive, after, entries, total) =
        op_close-Held closing.thread opening.thread a fd (length c.files)
          (apply_all ops (new_file_state (opening.host.stat name) name flags)) e
          (ap (find closing.thread) table ∙ known) last in
      (
        c',
        and_then-done (syscall_exit opening.host opening.thread opening.registers c) _ (
              syscall_exit-opens opening.host opening.thread fd flags opening.registers c opens
                writable
              ∙ opened)
            ∙ run_calls-append ks (closing ∷ []) d
            ∙ and_then-done (run_calls ks d) _ used
            ∙ run_calls-one closing e c' (
                syscall_exit-closes closing.host closing.thread fd closing.registers e closes
                ∙ closed),
        alive,
        λ b j.
            after b j
            ∙ ap (λ (ps : List ProcState). slot (fds_of b (cleared a fd ps)) j) procs
            ∙ before b j,
        entries ∙ table,
        total
            ∙ rw
                (
                  still.file_storage,
                  same.file_storage,
                  grown_size (opening.host.stat name) flags name ops fits,
                )
                refl,
      )
