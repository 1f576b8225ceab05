-- ===== src/Context.antt =====
-- TContext of src/context.h and src/context.cpp: the traced processes and what they write.
-- Objects that several pointers share live in two heaps of the context, `procs` and `files`, and a
-- `shared_ptr` is an index into them. An object that no pointer leads to stays in its heap, where
-- nothing finds it. `use_count` counts pointers. Process ids and descriptors are small numbers, for
-- which the casts of the code change nothing.
pub mod Objects
pub mod Descriptors
pub mod Lifecycle
pub mod Syscalls
pub mod Steps
pub mod Counts
pub mod Balance
pub mod Vanish
pub mod WellFormed
pub mod PostProcess
pub mod Slots
pub mod Live
pub mod Safety
pub mod Exits
pub mod Table
pub mod Kept
pub mod Twins
pub mod Matches
pub mod Enrol
pub mod Copies
pub mod Forks
pub mod Execs
pub mod Reachable
pub mod Runs
pub mod Held
pub mod Opened
pub mod Sessions
pub mod Series
use optrace.Prelude.{
  ℕ, zero, suc, ◌+◌, Bool, true, false, Option, none, some, List, [], ◌∷◌, ◌++◌, length, get_elem?,
  set, ◌==◌, if◌then◌else◌,
}
use optrace.Prelude.Int.{ℤ}
use optrace.Prelude.Maps.{find}
use optrace.FileState.{FileState}
use optrace.Types.{ProcInfoPtr, ProcState, OutputFile}
use optrace.Options.{Options}
use optrace.Storage.{Storage, new_storage}
use optrace.Storage.Queue.{PriorityQueue, list_queue}

pub record Context : Type 0 where
  pub options : Options
  pub group_leaders : List ℕ
  pub proc_map : List (ℕ × ℕ)
  pub file_storage : Storage list_queue
  pub procs : List ProcState
  pub files : List FileState
  -- The signals that the tracer has sent by `kill`, the last one first.
  pub kills : List (ℕ × ℤ)

unfoldable pub new_context : Options → Context
unfolding new_storage
new_context opts = record {
  options = opts;
  group_leaders = [];
  proc_map = [];
  file_storage = new_storage list_queue opts.files_in_report opts.store_empty_files;
  procs = [];
  files = [];
  kills = [];
}

-- How a call ends: it returns, a failed `assert` aborts the tracer, `exit` ends it with a status, or
-- the C++ code leaves what the language defines.
pub data Outcome {ℓ} (A : Type ℓ) : Type ℓ where
  done : A → Context → Outcome A
  aborted : Outcome A
  exited : ℕ → Outcome A
  undefined : Outcome A

abbrev pub Cmd {ℓ} : Type ℓ → Type ℓ
Cmd A = Context → Outcome A

abbrev pub pure {ℓ} : {A : Type ℓ} → A → Cmd A
pure = done

abbrev pub and_then {ℓ κ} : {A : Type ℓ} {B : Type κ} → Outcome A → (A → Cmd B) → Outcome B
and_then (done a c) k = k a c
and_then aborted k = aborted
and_then (exited n) k = exited n
and_then undefined k = undefined

infixl 5 ◌>>=◌ ◌>>◌
abbrev pub ◌>>=◌ {ℓ κ} : {A : Type ℓ} {B : Type κ} → Cmd A → (A → Cmd B) → Cmd B
m >>= k = λ c. and_then (m c) k

abbrev pub ◌>>◌ {ℓ κ} : {A : Type ℓ} {B : Type κ} → Cmd A → Cmd B → Cmd B
m >> n = m >>= λ _. n

abbrev pub gets {ℓ} : {A : Type ℓ} → (Context → A) → Cmd A
gets f c = done (f c) c

abbrev pub modify : (Context → Context) → Cmd (Unit {0})
modify f c = done tt (f c)

abbrev pub assert : Bool → Cmd (Unit {0})
assert true c = done tt c
assert false c = aborted

abbrev pub skip : Cmd (Unit {0})
skip = pure tt
