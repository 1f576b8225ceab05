-- ===== src/Context/Held.antt =====
-- A file that one descriptor of a process holds open, under the system calls of the threads of the
-- process on this and on other descriptors.
use optrace.Prelude.{
  ℕ, zero, suc, ◌+◌, ◌≡◌, refl, sym, ap, subst, ◌∙◌, true, false, Option, none, some, List, [], ◌∷◌,
  ◌++◌, get_elem?, ◌==◌, if◌then◌else◌, arith, Bool-cases, Option-cases, inl, inr, eq_of_==,
}
use native.Mathlib.Nat.{zero-add}
use optrace.Prelude.Maps.{find}
use optrace.Abi.{Registers}
use optrace.Host.{Host}
use optrace.FileState.{FileState}
use optrace.FileState.Extents.{FileOp, writes, pwrites, seeks, flags, apply, apply_all}
use optrace.Context.{Context, Cmd, done, skip, and_then, ◌>>◌}
use optrace.Context.Objects.{
  fds_of, slot, modify_at, modify_file, is_mapped, use_count, get_proc_state,
}
use optrace.Context.Descriptors.{on_open_file}
use optrace.Context.Counts.{cleared, count_refs-cleared, slot-cleared}
use optrace.Context.Steps.{and_then-done, get_proc_state-some}
use optrace.Context.Syscalls.{
  Action, write_change_offset, write_no_offset_change, open_write_file, open_file, close, dup, dup2,
  dup3, resize, seek, set_flag, nothing, perform, decode, syscall_exit,
}
use optrace.Context.Live.{IsLive, modify_file-IsLive, is_mapped-IsLive}

-- A finished system call: the thread, its registers, and what the system answers the tracer.
pub record Call : Type 0 where
  pub thread : ℕ
  pub host : Host
  pub registers : Registers

unfoldable pub run_calls : List Call → Cmd (Unit {0})
unfolding syscall_exit
run_calls [] = skip
run_calls (k ∷ ks) = syscall_exit k.host k.thread k.registers >> run_calls ks

abbrev only : ℕ → ℕ → FileOp → List FileOp
only fd other op = if other == fd then op ∷ [] else []

-- What an action means for the file that descriptor `fd` holds; `none` where it may open, close or
-- duplicate a descriptor.
unfoldable pub meaning : ℕ → Action → Option (List FileOp)
meaning fd (write_change_offset d n) = some (only fd d (writes n))
meaning fd (write_no_offset_change d n offset) = some (only fd d (pwrites n offset))
meaning fd (open_write_file d f) = none
meaning fd (open_file d f) = none
meaning fd (close d) = none
meaning fd (dup d e) = none
meaning fd (dup2 d e) = none
meaning fd (dup3 d e f) = none
meaning fd (resize d size) = some (only fd d (pwrites size 0))
meaning fd (seek d pos) = some (only fd d (seeks pos))
meaning fd (set_flag d f) = some (only fd d (flags f))
meaning fd nothing = some []

get_elem?-modify_at {ℓ} :
    {A : Type ℓ} (xs : List A) (i j : ℕ) (f : A → A) {x : A}
    → get_elem? xs i ≡ some x
    → get_elem? (modify_at xs j f) i ≡ some (if j == i then f x else x)
get_elem?-modify_at [] i j f e = absurd (ground arith)
get_elem?-modify_at (y ∷ xs) zero zero f e = ground arith
get_elem?-modify_at (y ∷ xs) zero (suc j) f e = ground arith
get_elem?-modify_at (y ∷ xs) (suc i) zero f e = ground arith
get_elem?-modify_at (y ∷ xs) (suc i) (suc j) f e = ground (arith, get_elem?-modify_at xs i j f e)

-- Descriptor `fd` of the process at `a`, where thread `pid` is live, is the only one for the file at
-- `r`, which is in state `s`.
pub record Held (pid a fd r : ℕ) (s : FileState) (c : Context) : Type 0 where
  pub live : IsLive pid a c
  pub pointer : slot (fds_of a c.procs) fd ≡ some r
  pub file : get_elem? c.files r ≡ some s
  pub alone : use_count c r ≡ 1

-- What calls on files leave alone.
pub record SameTable (c c' : Context) : Type 0 where
  pub proc_map : c'.proc_map ≡ c.proc_map
  pub file_storage : c'.file_storage ≡ c.file_storage

module _ (pid a fd r : ℕ) (s : FileState) (c : Context) (held : Held pid a fd r s c) where
  -- No other slot of the process holds the file.
  other_slot : (d q : ℕ) → (d == fd) ≡ false → slot (fds_of a c.procs) d ≡ some q → (q == r) ≡ false
  unfolding use_count
  other_slot d q other e =
      let m = is_mapped-IsLive pid a c held.live in
      let m' : is_mapped (0 + a) c.proc_map ≡ true = rw zero-add m in
      let first = count_refs-cleared c.proc_map r 0 c.procs a fd m' in
      let second = count_refs-cleared c.proc_map r 0 (cleared a fd c.procs) a d m' in
      let still = slot-cleared c.procs a fd a d in
      ground (arith, first, second, still, held.pointer, held.alone, e)

  modified-Held :
      (q : ℕ) (f : FileState → FileState)
      → Held pid a fd r (if q == r then f s else s) (modify_file q f c)
  unfolding modify_file use_count
  modified-Held q f = record {
    live = modify_file-IsLive pid a c held.live q f;
    pointer = held.pointer;
    file = get_elem?-modify_at c.files r q f held.file;
    alone = held.alone;
  }

  -- A call on descriptor `d`, in whatever thread of the process.
  on_open_file-Held :
      (thread d : ℕ) (f : FileState → FileState)
      → find thread c.proc_map ≡ some a
      → (c' : Context) × (on_open_file thread d f c ≡ done tt c')
        × Held pid a fd r (if d == fd then f s else s) c'
        × SameTable c c'
        × (c'.procs ≡ c.procs)
  unfolding on_open_file modify_file
  on_open_file-Held thread d f known =
      let found =
        and_then-done (get_proc_state thread c) _ (get_proc_state-some thread a c known) in
      elim (Option-cases (slot (fds_of a c.procs) d)) [
        | inl e ↦ (
          c,
          found ∙ rw e refl,
          ground (arith, held, held.pointer, e),
          record { proc_map = refl; file_storage = refl },
          refl,
        )
        | inr (q, e) ↦ (
          modify_file q f c,
          found ∙ rw e refl,
          subst (λ b. Held pid a fd r (if b then f s else s) (modify_file q f c)) (same_file q e)
              (modified-Held q f),
          record { proc_map = refl; file_storage = refl },
          refl,
        )
      ]
    where
      same_file : (q : ℕ) → slot (fds_of a c.procs) d ≡ some q → (q == r) ≡ (d == fd)
      same_file q e = elim (Bool-cases (d == fd)) [
        | inl same ↦
            ground (arith, held.pointer, e, ap (slot (fds_of a c.procs)) (eq_of_== d fd same))
        | inr other ↦ other_slot d q other e ∙ sym other
      ]

-- Where a command takes a held file, and what it leaves alone.
abbrev pub Goes : (pid a fd r : ℕ) → FileState → Context → Cmd (Unit {0}) → Type 0
Goes pid a fd r s c m =
    (c' : Context) × (m c ≡ done tt c')
    × Held pid a fd r s c'
    × SameTable c c'
    × (c'.procs ≡ c.procs)

only-apply_all :
    (fd d : ℕ) (op : FileOp) (s : FileState)
    → (if d == fd then apply op s else s) ≡ apply_all (only fd d op) s
unfolding apply_all
only-apply_all fd d op s = ground arith

module _ (pid a fd r : ℕ) (s : FileState) (c : Context) (held : Held pid a fd r s c) where
  one_file :
      (h : Host) (thread d : ℕ) (op : FileOp) (ops : List FileOp)
      → find thread c.proc_map ≡ some a
      → some (only fd d op) ≡ some ops
      → Goes pid a fd r (apply_all ops s) c (on_open_file thread d (apply op))
  one_file h thread d op ops known e =
      subst (λ t. Goes pid a fd r t c (on_open_file thread d (apply op)))
        (only-apply_all fd d op s ∙ ap (λ l. apply_all l s) (ground arith))
        (on_open_file-Held pid a fd r s c held thread d (apply op) known)

  perform-Held :
      (h : Host) (thread : ℕ) (act : Action) (ops : List FileOp)
      → find thread c.proc_map ≡ some a
      → meaning fd act ≡ some ops
      → Goes pid a fd r (apply_all ops s) c (perform h thread act)
  unfolding perform meaning apply apply_all optrace.Context.Descriptors.op_write_change_offset
      optrace.Context.Descriptors.op_write_no_offset_change optrace.Context.Descriptors.op_resize
      optrace.Context.Descriptors.op_seek optrace.Context.Descriptors.op_set_flag
  perform-Held h thread (write_change_offset d n) ops known e =
      one_file h thread d (writes n) ops known e
  perform-Held h thread (write_no_offset_change d n o) ops known e =
      one_file h thread d (pwrites n o) ops known e
  perform-Held h thread (open_write_file d f) ops known e = absurd (ground arith)
  perform-Held h thread (open_file d f) ops known e = absurd (ground arith)
  perform-Held h thread (close d) ops known e = absurd (ground arith)
  perform-Held h thread (dup d d') ops known e = absurd (ground arith)
  perform-Held h thread (dup2 d d') ops known e = absurd (ground arith)
  perform-Held h thread (dup3 d d' f) ops known e = absurd (ground arith)
  perform-Held h thread (resize d size) ops known e =
      one_file h thread d (pwrites size 0) ops known e
  perform-Held h thread (seek d p) ops known e = one_file h thread d (seeks p) ops known e
  perform-Held h thread (set_flag d f) ops known e = one_file h thread d (flags f) ops known e
  perform-Held h thread nothing ops known e =
      let none_left : [] ≡ ops = ground arith in
      (
        c,
        refl,
        subst (λ l. Held pid a fd r (apply_all l s) c) none_left held,
        record { proc_map = refl; file_storage = refl },
        refl,
      )

-- The calls are of threads of the process at `a`, and mean `ops` for the file of descriptor `fd`.
abbrev pub Follows : (a fd : ℕ) → List (ℕ × ℕ) → List FileOp → List Call → Type 0
Follows a fd m ops [] = ops ≡ []
Follows a fd m ops (k ∷ ks) =
    (find k.thread m ≡ some a)
    × ((now : List FileOp) × (later : List FileOp) × (meaning fd (decode k.registers) ≡ some now)
        × (ops ≡ now ++ later)
        × Follows a fd m later ks)

apply_all-append :
    (now later : List FileOp) (s : FileState)
    → apply_all later (apply_all now s) ≡ apply_all (now ++ later) s
unfolding apply_all
apply_all-append [] later s = refl
apply_all-append (op ∷ now) later s = apply_all-append now later (apply op s)

-- All of them.
pub run_calls-Held :
    (ks : List Call) (ops : List FileOp) (pid a fd r : ℕ) (s : FileState) (c : Context)
    → Held pid a fd r s c
    → Follows a fd c.proc_map ops ks
    → Goes pid a fd r (apply_all ops s) c (run_calls ks)
unfolding run_calls apply_all
run_calls-Held [] ops pid a fd r s c held follows = (
  c,
  refl,
  subst (λ l. Held pid a fd r (apply_all l s) c) (sym follows) held,
  record { proc_map = refl; file_storage = refl },
  refl,
)
run_calls-Held (k ∷ ks) ops pid a fd r s c held (known, (now, later, e, split, rest)) =
    let (d, run, next, same, procs) =
      perform-Held pid a fd r s c held k.host k.thread (decode k.registers) now known e in
    let (c', ran, last, still, others) =
      run_calls-Held ks later pid a fd r (apply_all now s) d next
        (subst (λ m. Follows a fd m later ks) (sym same.proc_map) rest) in
    (
      c',
      and_then-done (syscall_exit k.host k.thread k.registers c) _ (unfold syscall_exit in run)
          ∙ ran,
      subst (λ t. Held pid a fd r t c')
          (apply_all-append now later s ∙ ap (λ l. apply_all l s) (sym split)) last,
      record {
        proc_map = still.proc_map ∙ same.proc_map;
        file_storage = still.file_storage ∙ same.file_storage;
      },
      others ∙ procs,
    )
