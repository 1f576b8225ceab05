-- ===== src/Context/Runs.antt =====
-- Runs of the tracer as sequences of the calls that `RunTracer` makes on its context.
use optrace.Prelude.{
  ℕ, ◌+◌, ◌≡◌, refl, sym, ap, subst, ◌∙◌, Bool, true, false, Option, none, some, [], ◌∷◌,
  if◌then◌else◌, word, Text, length,
}
use optrace.Prelude.Int.{ℤ, is_zero}
use optrace.Prelude.Maps.{find}
use optrace.Host.{Host}
use optrace.Utils.{get_cwd}
use optrace.Cores.{recover_core_dump_file, is_empty}
use optrace.Options.{Options}
use optrace.Abi.{Registers}
use optrace.Types.{ProcInfoPtr, ProcState}
use optrace.Storage.Queue.{list_queue}
use optrace.Storage.Largest.{output_size-add_file_entry}
use optrace.Context.{Context, new_context, Outcome, done, aborted, exited, undefined}
use optrace.Context.Descriptors.{get_proc_info}
use optrace.Context.Objects.{get_proc_state}
use optrace.Context.Lifecycle.{
  register_tracee, register_process, register_thread, register_exec, vanish_process,
  register_core_dump, search_and_register_core_dump_file,
}
use optrace.Context.Syscalls.{syscall_exit}
use optrace.Context.Balance.{owed}
use optrace.Context.WellFormed.{IsWellFormed, HasLeader, is_mapped_of_find}
use optrace.Context.PostProcess.{
  PostProcessed, vanish_process-Vanished, post_process-total, lookup_proc,
}
use optrace.Report.{Printer}
use optrace.Context.Kept.{Keeps, syscall_exit-Keeps, register_thread-Keeps}
use optrace.Context.Kept.Forks.{
  register_process-Keeps, vanish_process-Keeps, register_exec-Keeps, register_core_dump-Keeps,
}
use optrace.Context.Kept.Starts.{register_tracee-Keeps}
use optrace.Context.Steps.{and_then-done, get_proc_state-some, get_proc_info-some}
use optrace.Context.Live.{IsLive, Ends}
use optrace.Context.Safety.{StaysLive, Unreadable}
use optrace.Context.Exits.{syscall_exit-Ends_any}
use optrace.Context.Forks.{register_process-IsWellFormed, register_thread-IsLive}
use optrace.Context.Execs.{register_exec-IsLive}
use optrace.Context.Reachable.{HasFds, register_tracee-Ends}

-- The contexts of a run that starts with the answers `start` of the system; later answers may differ.
-- Ids of children are new, as the kernel gives them, and a thread acts only as long as the leader of
-- its group is there.
pub data Reachable (start : Host) (opts : Options) : Context → Type 0 where
  tracee :
      (pid : ℕ) (c : Context)
      → register_tracee start pid (new_context opts) ≡ done tt c
      → Reachable start opts c
  system_call :
      (h : Host) (pid a : ℕ) (r : Registers) (c c' : Context)
      → Reachable start opts c
      → find pid c.proc_map ≡ some a
      → HasLeader a c
      → syscall_exit h pid r c ≡ done tt c'
      → Reachable start opts c'
  fork :
      (h : Host) (parent child a : ℕ) (c c' : Context)
      → Reachable start opts c
      → find parent c.proc_map ≡ some a
      → find child c.proc_map ≡ none
      → register_process h parent child c ≡ done tt c'
      → Reachable start opts c'
  new_thread :
      (pid thread a : ℕ) (c c' : Context)
      → Reachable start opts c
      → find pid c.proc_map ≡ some a
      → HasLeader a c
      → find thread c.proc_map ≡ none
      → register_thread pid thread c ≡ done tt c'
      → Reachable start opts c'
  exec :
      (h : Host) (pid a : ℕ) (c c' : Context)
      → Reachable start opts c
      → find pid c.proc_map ≡ some a
      → HasLeader a c
      → register_exec h pid c ≡ done tt c'
      → Reachable start opts c'
  core_dump :
      (h : Host) (pid a term_sig : ℕ) (c c' : Context)
      → Reachable start opts c
      → find pid c.proc_map ≡ some a
      → register_core_dump h pid term_sig c ≡ done tt c'
      → Reachable start opts c'
  vanish :
      (pid a : ℕ) (c c' : Context)
      → Reachable start opts c
      → find pid c.proc_map ≡ some a
      → vanish_process pid c ≡ done tt c'
      → Reachable start opts c'

-- What holds of all of them.
pub record IsSound (c : Context) : Type 0 where
  pub well_formed : IsWellFormed c
  pub counted : is_zero c.file_storage.capacity ≡ false

-- A call returns, or leaves what the language defines.
abbrev pub Returns : (Context → Type 0) → Outcome (Unit {0}) → Type 0
Returns Q (done x c) = Q c
Returns Q aborted = ⊥
Returns Q (exited n) = ⊥
Returns Q undefined = Unit

-- The same entries, and still sound.
abbrev pub Reported : Context → Context → Type 0
Reported c c' = IsSound c' × (c'.proc_map ≡ c.proc_map)

search-Returns :
    (h : Host) (pinfo : ProcInfoPtr) (term_sig : ℕ) (c : Context)
    → IsSound c
    → Returns (Reported c) (search_and_register_core_dump_file h pinfo term_sig c)
unfolding search_and_register_core_dump_file
search-Returns h pinfo term_sig c s =
    on_file (recover_core_dump_file h pinfo.info.pid pinfo.info.command_name (get_cwd h) term_sig)
  where
    stored :
        (e : optrace.Types.OutputFile)
        → Reported c
            (record c { file_storage = optrace.Storage.add_file_entry list_queue e c.file_storage })
    stored e = (
      record {
        well_formed = record {
          files = s.well_formed.files;
          procs = s.well_formed.procs;
          led = s.well_formed.led;
          leaders = s.well_formed.leaders;
        };
        counted =
            ap is_zero (output_size-add_file_entry list_queue e c.file_storage s.counted).0
            ∙ s.counted;
      },
      refl,
    )

    on_file :
        (file : Option Text)
        → Returns (Reported c) (elim file as (λ _. Outcome (Unit {0})) [
          | none ↦ undefined
          | some filename ↦
              if is_empty filename
              then done tt c
              else done tt (record c {
                file_storage =
                    optrace.Storage.add_file_entry list_queue
                      (record {
                        size = optrace.FileState.get_file_length (h.stat filename);
                        filename = filename;
                        proc_info = pinfo;
                      })
                      c.file_storage;
              })
        ])
    on_file none = tt
    on_file (some []) = (s, refl)
    on_file (some (x ∷ xs)) = stored _

pub core_dump-Returns :
    (h : Host) (pid a term_sig : ℕ) (c : Context)
    → IsSound c
    → find pid c.proc_map ≡ some a
    → Returns (Reported c) (register_core_dump h pid term_sig c)
unfolding register_core_dump
core_dump-Returns h pid a term_sig c s known =
    let (p, at) =
      lookup_proc c.procs a (s.well_formed.procs a (is_mapped_of_find pid a c.proc_map known)) in
    let run =
      and_then-done (get_proc_state pid c) _ (get_proc_state-some pid a c known)
      ∙ and_then-done (get_proc_info a c) _ (get_proc_info-some a p c at) in
    subst (Returns (Reported c)) (sym run) (if_wanted p c.options.search_for_core_dumps)
  where
    if_wanted :
        (p : ProcState) (wanted : Bool)
        → Returns (Reported c) (
            (if wanted then search_and_register_core_dump_file h p.proc_info term_sig else done tt)
              c)
    if_wanted p true = search-Returns h p.proc_info term_sig c s
    if_wanted p false = (s, refl)

-- The context of a call that has returned.
context_of : Context → Outcome (Unit {0}) → Context
context_of d (done x c) = c
context_of d aborted = d
context_of d (exited n) = d
context_of d undefined = d

same_context : (c d : Context) (o : Outcome (Unit {0})) → o ≡ done tt c → o ≡ done tt d → c ≡ d
unfolding context_of
same_context c d o p q = ap (context_of c) (sym p ∙ q)

pub known-IsLive :
    (pid a : ℕ) (c : Context)
    → IsSound c
    → find pid c.proc_map ≡ some a
    → HasLeader a c
    → IsLive pid a c
known-IsLive pid a c s known leader = record {
  well_formed = s.well_formed;
  known = known;
  leader = leader;
  counted = s.counted;
}

IsLive-IsSound : (pid a : ℕ) (c : Context) → IsLive pid a c → IsSound c
IsLive-IsSound pid a c live = record { well_formed = live.well_formed; counted = live.counted }

-- A call that has returned has kept the options.
returned-Keeps :
    (o : Options) (r : Outcome (Unit {0})) (c : Context) → r ≡ done tt c → Keeps o r → c.options ≡ o
returned-Keeps o r c run h = subst (Keeps o) run h

-- The options of every context of a run are those that it began with.
pub options-Reachable :
    (start : Host) (opts : Options) (c : Context) → Reachable start opts c → c.options ≡ opts
unfolding new_context
options-Reachable start opts _ (tracee pid c' run) =
    returned-Keeps opts _ c' run (register_tracee-Keeps opts start pid (new_context opts) refl)
options-Reachable start opts _ (system_call h pid a r c c' reached known leader run) =
    returned-Keeps opts _ c' run
      (syscall_exit-Keeps opts h pid r c (options-Reachable start opts c reached))
options-Reachable start opts _ (fork h parent child a c c' reached known fresh run) =
    returned-Keeps opts _ c' run
      (register_process-Keeps opts h parent child c (options-Reachable start opts c reached))
options-Reachable start opts _ (new_thread pid thread a c c' reached known leader fresh run) =
    returned-Keeps opts _ c' run
      (register_thread-Keeps opts pid thread c (options-Reachable start opts c reached))
options-Reachable start opts _ (exec h pid a c c' reached known leader run) =
    returned-Keeps opts _ c' run
      (register_exec-Keeps opts h pid c (options-Reachable start opts c reached))
options-Reachable start opts _ (core_dump h pid a term_sig c c' reached known run) =
    returned-Keeps opts _ c' run
      (register_core_dump-Keeps opts h pid term_sig c (options-Reachable start opts c reached))
options-Reachable start opts _ (vanish pid a c c' reached known run) =
    returned-Keeps opts _ c' run
      (vanish_process-Keeps opts pid c (options-Reachable start opts c reached))

module _ (start : Host) (opts : Options) (counted : is_zero opts.files_in_report ≡ false)
    (fds : HasFds start) where
  -- Every context of a run is sound.
  pub Reachable-IsSound : (c : Context) → Reachable start opts c → IsSound c
  Reachable-IsSound _ (tracee pid c' run) = IsLive-IsSound pid 0 c' (
      subst (Ends (Unreadable start) (StaysLive pid 0)) run
        (register_tracee-Ends start pid opts counted fds))
  Reachable-IsSound _ (system_call h pid a r c c' reached known leader run) =
      let live = known-IsLive pid a c (Reachable-IsSound c reached) known leader in
      IsLive-IsSound pid a c'
        (subst (Ends (Unreadable h) (StaysLive pid a)) run (syscall_exit-Ends_any h pid a c live r))
  Reachable-IsSound _ (fork h parent child a c c' reached known fresh run) =
      let s = Reachable-IsSound c reached in
      let (d, returns, wf, entry, leads, storage, table) =
        register_process-IsWellFormed h parent child a c s.well_formed known fresh in
      subst IsSound (same_context d c' (register_process h parent child c) returns run)
        (record { well_formed = wf; counted = ap (λ t. is_zero t.capacity) storage ∙ s.counted })
  Reachable-IsSound _ (new_thread pid thread a c c' reached known leader fresh run) =
      let live = known-IsLive pid a c (Reachable-IsSound c reached) known leader in
      let (d, returns, parent, other, table) = register_thread-IsLive pid thread a c live fresh in
      subst IsSound (same_context d c' (register_thread pid thread c) returns run)
        (IsLive-IsSound pid a d parent)
  Reachable-IsSound _ (exec h pid a c c' reached known leader run) =
      let live = known-IsLive pid a c (Reachable-IsSound c reached) known leader in
      let (d, returns, next, table) = register_exec-IsLive h pid a c live in
      subst IsSound (same_context d c' (register_exec h pid c) returns run)
        (IsLive-IsSound pid (length c.procs) d next)
  Reachable-IsSound _ (core_dump h pid a term_sig c c' reached known run) =
      (subst (Returns (Reported c)) run
        (core_dump-Returns h pid a term_sig c (Reachable-IsSound c reached) known)).0
  Reachable-IsSound _ (vanish pid a c c' reached known run) =
      let s = Reachable-IsSound c reached in
      let (d, returns, v) = vanish_process-Vanished pid a c s.well_formed s.counted known in
      subst IsSound (same_context d c' (vanish_process pid c) returns run)
        (record { well_formed = v.well_formed; counted = ap is_zero v.capacity ∙ s.counted })

  -- In every context that a run gets into (calls of `RegisterTracee`, `SyscallExit`, `RegisterProcess`,
  -- `RegisterThread`, `RegisterExec`, `RegisterCoreDump` and `VanishProcess`, in any number and order,
  -- under the conditions of `Reachable`), the loop of `PostProcess` ends without a failure, with no
  -- process left, and modulo `2 ^ 64` the total of the report is the total so far and the output sizes
  -- of all files that were still open; then the report is printed and the argument returned, unless the
  -- run was started with `-h` and a size in the report has no text that is defined, where
  -- `PostProcess` leaves what the language defines. This is if the report limit is not 0 and the
  -- tracer's own descriptors are as in `HasFds`.
  pub Reachable-post_process :
      (p : Printer) (c : Context) (rc : ℤ)
      → Reachable start opts c
      → (c.options ≡ opts)
        × ((c' : Context) × PostProcessed p rc c c'
            × (c'.proc_map ≡ [])
            × (word c'.file_storage.output_size ≡ word (c.file_storage.output_size + owed c)))
  Reachable-post_process p c rc reached =
      let s = Reachable-IsSound c reached in
      (options-Reachable start opts c reached, post_process-total p rc c s.well_formed s.counted)
