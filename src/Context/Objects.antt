-- ===== src/Context/Objects.antt =====
-- The shared objects of a context, the pointers to them, and `TearDownFd`.
use optrace.Prelude.{
  ℕ, zero, suc, ◌+◌, ◌-◌, Bool, true, false, Option, none, some, List, [], ◌∷◌, ◌++◌, length,
  get_elem?, set, take, replicate, ◌==◌, if◌then◌else◌,
}
use optrace.Prelude.Maps.{find}
use optrace.FileState.{FileState, is_cloexec_set}
use optrace.Types.{ProcInfoPtr, ProcState, new_output_file}
use optrace.Storage.{add_file_entry}
use optrace.Storage.Queue.{list_queue}
use optrace.Context.{Context, Cmd, done, aborted}

-- `GetProcState`: the address of the process's data.
unfoldable pub get_proc_state : ℕ → Cmd ℕ
get_proc_state pid c = elim (find pid c.proc_map) [ none ↦ aborted | some a ↦ done a c ]

-- `Fds` of the process at an address.
abbrev pub fds_of : ℕ → List ProcState → List (Option ℕ)
fds_of a procs = elim (get_elem? procs a) [ none ↦ [] | some p ↦ p.fds ]

-- The pointer in a slot; a slot outside the vector reads as a null pointer. So `fd < fds.size() &&
-- !!fds[fd]` is that `slot fds fd` is no `none`.
abbrev pub slot : List (Option ℕ) → ℕ → Option ℕ
slot fds fd = elim (get_elem? fds fd) [ none ↦ none | some p ↦ p ]

-- `fds.resize(n)`.
unfoldable pub resize : List (Option ℕ) → ℕ → List (Option ℕ)
resize fds n = take n fds ++ replicate (n - length fds) none

abbrev pub update_fds : (List (Option ℕ) → List (Option ℕ)) → ProcState → ProcState
update_fds f p = record p { fds = f p.fds }

abbrev pub modify_at {ℓ} : {A : Type ℓ} → List A → ℕ → (A → A) → List A
modify_at [] i f = []
modify_at (x ∷ xs) zero f = f x ∷ xs
modify_at (x ∷ xs) (suc i) f = x ∷ modify_at xs i f

-- An assignment to the vector of the process at an address.
unfoldable pub modify_fds : ℕ → (List (Option ℕ) → List (Option ℕ)) → Context → Context
modify_fds a f c = record c { procs = modify_at c.procs a (update_fds f) }

-- A call of a method on the file at an address.
unfoldable pub modify_file : ℕ → (FileState → FileState) → Context → Context
modify_file r f c = record c { files = modify_at c.files r f }

-- `std::make_shared<TFileState>`: a new object, and its address.
unfoldable pub allocate_file : FileState → Cmd ℕ
allocate_file s c = done (length c.files) (record c { files = c.files ++ s ∷ [] })

abbrev pub points_to : ℕ → Option ℕ → ℕ
points_to r none = 0
points_to r (some q) = if q == r then 1 else 0

-- How many slots of a vector hold the pointer `r`.
abbrev pub occurrences : ℕ → List (Option ℕ) → ℕ
occurrences r [] = 0
occurrences r (p ∷ fds) = points_to r p + occurrences r fds

-- Some entry of `ProcMap` holds the address: the process's data is alive.
abbrev pub is_mapped : ℕ → List (ℕ × ℕ) → Bool
is_mapped a [] = false
is_mapped a ((pid, b) ∷ m) = if b == a then true else is_mapped a m

-- The pointers to `r` in the processes from address `a` on, as far as they are alive.
unfoldable pub count_refs : List (ℕ × ℕ) → ℕ → ℕ → List ProcState → ℕ
count_refs m r a [] = 0
count_refs m r a (p ∷ ps) =
    (if is_mapped a m then occurrences r p.fds else 0) + count_refs m r (suc a) ps

-- `file.use_count()` of the file at an address.
unfoldable pub use_count : Context → ℕ → ℕ
unfolding count_refs
use_count c r = count_refs c.proc_map r 0 c.procs

-- `std::make_shared<TOutputFile>(file.get(), pinfo)` and `AddFileEntry`.
unfoldable pub report_file : ℕ → ProcInfoPtr → Context → Context
report_file r pinfo c = elim (get_elem? c.files r) [
  | none ↦ c
  | some s ↦ record c {
    file_storage = add_file_entry list_queue (new_output_file s pinfo) c.file_storage;
  }
]

abbrev pub clear_slot : ℕ → List (Option ℕ) → List (Option ℕ)
clear_slot fd fds = set fds fd none

-- The body of `TearDownFd`, on the slot `fd` of the process at `a`, which holds the pointer `r`.
unfoldable pub torn_down : ℕ → ℕ → ℕ → ProcInfoPtr → Context → Context
unfolding use_count report_file modify_fds
torn_down a fd r pinfo c =
    modify_fds a (clear_slot fd) (if use_count c r == 1 then report_file r pinfo c else c)

-- `TearDownFd`: a null pointer fails the `assert`.
unfoldable pub tear_down_fd : ℕ → ℕ → ProcInfoPtr → Cmd (Unit {0})
unfolding torn_down
tear_down_fd a fd pinfo c = elim (slot (fds_of a c.procs) fd) [
  | none ↦ aborted
  | some r ↦ done tt (torn_down a fd r pinfo c)
]

-- The condition on a slot in `GetHighestFd`.
abbrev pub counts_as_open : List FileState → Bool → Option ℕ → Bool
counts_as_open files cloexec_free none = false
counts_as_open files cloexec_free (some r) = elim (get_elem? files r) [
  | none ↦ false
  | some s ↦ if cloexec_free then (if is_cloexec_set s then false else true) else true
]

-- The loop of `GetHighestFd` over the first `n` slots: the number of slots up to the highest that
-- counts, which is the result of the function plus 1 (0 for -1).
unfoldable pub highest_slots : List FileState → List (Option ℕ) → Bool → ℕ → ℕ
highest_slots files fds cloexec_free zero = 0
highest_slots files fds cloexec_free (suc fd) =
    let rest = highest_slots files fds cloexec_free fd in
    if counts_as_open files cloexec_free (slot fds fd) then suc fd else rest

-- `GetHighestFd(fds, cloexecFree) + 1`.
unfoldable pub get_highest_fd : List FileState → List (Option ℕ) → Bool → ℕ
unfolding highest_slots
get_highest_fd files fds cloexec_free = highest_slots files fds cloexec_free (length fds)
