-- ===== src/Tracer/Interleaved.antt =====
-- The stops of system calls of several threads, in any order, in the loop of `RunTracer`.
use optrace.Prelude.{
  ℕ, ◌≡◌, refl, ap, sym, ◌∙◌, false, Option, some, List, [], ◌∷◌, ◌==◌, if◌then◌else◌, arith,
  Bool-cases, inl, inr, eq_of_==,
}
use optrace.Prelude.Maps.{find, insert, has_key, find-insert}
use optrace.Abi.{syscall_trap}
use optrace.Context.{Context, Cmd, Outcome, done, aborted, exited, undefined, and_then}
use optrace.Context.Syscalls.{syscall_exit}
use optrace.Context.Held.{Call, run_calls}
use optrace.Tracer.{stopped, changed, Round, Config, Tracer, goes_on, syscall_undefined, no_entry}
use optrace.Tracer.Rounds.{get_syscall_number, on_stop, on_wait, step, continue_run, run_rounds}
use optrace.Tracer.Stops.{Answering, IsEntry, left_with, after_event-exit, on_entry}

-- A round in which a thread stops before a system call, with the signal that it is let go on with and
-- the number of the call, or after one.
pub data Stopping : Type 0 where
  enters : (thread : ℕ) (round : Round) (sig number : ℕ) → Stopping
  leaves : (thread : ℕ) (round : Round) → Stopping

abbrev pub rounds_of : List Stopping → List Round
rounds_of [] = []
rounds_of (enters thread round sig number ∷ ss) = round ∷ rounds_of ss
rounds_of (leaves thread round ∷ ss) = round ∷ rounds_of ss

-- The system calls, in the order in which they end.
abbrev pub ended_calls : List Stopping → List Call
ended_calls [] = []
ended_calls (enters thread round sig number ∷ ss) = ended_calls ss
ended_calls (leaves thread round ∷ ss) =
    record { thread = thread; host = round.host; registers = round.registers thread }
    ∷ ended_calls ss

-- What a thread is doing: not known, in no system call, or in the one with a number.
abbrev pub States : Type 0
States = ℕ → Option ℕ

abbrev pub sets : ℕ → ℕ → States → States
sets thread number states j = if thread == j then some number else states j

-- What the threads do after the stops.
abbrev pub final : List Stopping → States → States
final [] states = states
final (enters thread round sig number ∷ ss) states = final ss (sets thread number states)
final (leaves thread round ∷ ss) states = final ss (sets thread syscall_undefined states)

sets-some :
    (thread number : ℕ) (states : States) (j n : ℕ)
    → states j ≡ some n
    → (m : ℕ) × (sets thread number states j ≡ some m)
sets-some thread number states j n e = elim (Bool-cases (thread == j)) [
  | inl same ↦ (number, rw same refl)
  | inr other ↦ (n, rw other e)
]

-- No thread is forgotten.
pub final-some :
    (ss : List Stopping) (states : States) (j n : ℕ)
    → states j ≡ some n
    → (m : ℕ) × (final ss states j ≡ some m)
final-some [] states j n e = (n, e)
final-some (enters thread round sig number ∷ ss) states j n e =
    let (m, f) = sets-some thread number states j n e in
    final-some ss (sets thread number states) j m f
final-some (leaves thread round ∷ ss) states j n e =
    let (m, f) = sets-some thread syscall_undefined states j n e in
    final-some ss (sets thread syscall_undefined states) j m f

-- Each thread enters and leaves its system calls by turns, and the requests about it are answered.
abbrev pub IsAlternating : Config → List Stopping → States → Type 0
IsAlternating cfg [] states = Unit
IsAlternating cfg (enters thread round sig number ∷ ss) states =
    IsEntry cfg thread round.wait sig
    × Answering round thread
    × (states thread ≡ some syscall_undefined)
    × (get_syscall_number (round.registers thread) ≡ number)
    × ((number == no_entry) ≡ false)
    × ((number == syscall_undefined) ≡ false)
    × IsAlternating cfg ss (sets thread number states)
IsAlternating cfg (leaves thread round ∷ ss) states =
    (round.wait ≡ changed thread (stopped syscall_trap 0))
    × Answering round thread
    × ((number : ℕ) × (states thread ≡ some number) × ((number == syscall_undefined) ≡ false))
    × IsAlternating cfg ss (sets thread syscall_undefined states)

same_context : (c d : Context) → done (tt {0}) c ≡ done tt d → c ≡ d
same_context c d e = cc

-- The first of the calls has returned, and the others after it.
first_call :
    (k : Cmd (Unit {0})) (o : Outcome (Unit {0})) (c : Context)
    → and_then o (λ _. k) ≡ done tt c
    → (d : Context) × (o ≡ done tt d) × (k d ≡ done tt c)
first_call k (done x d) c e = (d, refl, e)
first_call k aborted c e = absurd (ground arith)
first_call k (exited n) c e = absurd (ground arith)
first_call k undefined c e = absurd (ground arith)

on_leave :
    (cfg : Config) (pid number : ℕ) (round : Round) (s : Tracer) (c : Context)
    → round.wait ≡ changed pid (stopped syscall_trap 0)
    → Answering round pid
    → find pid s.syscall_state_map ≡ some number
    → (number == syscall_undefined) ≡ false
    → syscall_exit round.host pid (round.registers pid) s.context ≡ done tt c
    → step cfg round s
      ≡ goes_on (record s {
        context = c;
        syscall_state_map = insert pid syscall_undefined s.syscall_state_map;
        resumed = left_with cfg pid ∷ s.resumed;
      })
unfolding step on_wait optrace.Tracer.Rounds.on_status on_stop
on_leave cfg pid number round s c ends answering here inside run =
    ap (λ v. on_wait cfg round v s) ends
    ∙ rw (on_stop, has_key, here)
        (after_event-exit cfg round pid answering number s c here inside run)

-- The states of a map after an assignment.
sets-insert :
    (thread number : ℕ) (states : States) (m m' : List (ℕ × ℕ))
    → find thread m' ≡ some number
    → ((j : ℕ) → (thread == j) ≡ false → find j m' ≡ find j m)
    → ((j : ℕ) → find j m ≡ states j)
    → (j : ℕ) → find j m' ≡ sets thread number states j
sets-insert thread number states m m' here others agree j = elim (Bool-cases (thread == j)) [
  | inl same ↦ rw same (ap (λ n. find n m') (sym (eq_of_== thread j same)) ∙ here)
  | inr other ↦ rw other (others j other ∙ agree j)
]

-- The loop of `RunTracer` over the stops of system calls of any threads, however they are interleaved,
-- goes on with the context that `SyscallExit` makes, called once for each system call in the order in
-- which they end, with no thread suspended and no exit noted by them, and with each thread in the call
-- that it has entered and not left, if there is one. This is if each thread enters and leaves its calls
-- by turns from what the map of states says in the beginning, each entry is told from an exit, all
-- requests are answered, and the calls of `SyscallExit` return.
pub run_rounds-run_calls :
    (cfg : Config) (ss : List Stopping) (s : Tracer) (states : States) (c : Context)
    → ((j : ℕ) → find j s.syscall_state_map ≡ states j)
    → IsAlternating cfg ss states
    → run_calls (ended_calls ss) s.context ≡ done tt c
    → (s' : Tracer) × (run_rounds cfg (rounds_of ss) s ≡ goes_on s')
      × (s'.context ≡ c)
      × (s'.suspended_threads ≡ s.suspended_threads)
      × (s'.tracee_exit_code ≡ s.tracee_exit_code)
      × ((j : ℕ) → find j s'.syscall_state_map ≡ final ss states j)
unfolding run_rounds run_calls
run_rounds-run_calls cfg [] s states c agree alternating run =
    (s, refl, same_context s.context c run, refl, refl, agree)
run_rounds-run_calls cfg (enters thread round sig number ∷ ss) s states c agree
      (begins, answering, free, entry, known, inside, rest) run =
    let (m, stepped, here, others) =
      on_entry cfg thread round round.wait sig number s refl answering begins (agree thread ∙ free)
        entry known inside in
    let t = record s {
      syscall_state_map = m;
      resumed = optrace.Tracer.restart_syscall thread sig ∷ s.resumed;
    } in
    let (s', ran, context, suspended, code, ends_as) =
      run_rounds-run_calls cfg ss t (sets thread number states) c
        (sets-insert thread number states s.syscall_state_map m here others agree) rest run in
    (
      s',
      ap (λ v. continue_run v (run_rounds cfg (rounds_of ss))) stepped ∙ ran,
      context,
      suspended,
      code,
      ends_as,
    )
run_rounds-run_calls cfg (leaves thread round ∷ ss) s states c agree
      (ends, answering, (number, state, inside), rest) run =
    let (d, called, later) =
      first_call (run_calls (ended_calls ss))
        (syscall_exit round.host thread (round.registers thread) s.context) c run in
    let m = insert thread syscall_undefined s.syscall_state_map in
    let t = record s {
      context = d;
      syscall_state_map = m;
      resumed = left_with cfg thread ∷ s.resumed;
    } in
    let (s', ran, context, suspended, code, ends_as) =
      run_rounds-run_calls cfg ss t (sets thread syscall_undefined states) c
        (sets-insert thread syscall_undefined states s.syscall_state_map m
          (ground (arith, find-insert thread thread syscall_undefined s.syscall_state_map))
          (λ j e. ground (arith, find-insert thread j syscall_undefined s.syscall_state_map)) agree)
        rest later in
    (
      s',
      ap (λ v. continue_run v (run_rounds cfg (rounds_of ss)))
            (on_leave cfg thread number round s d ends answering (agree thread ∙ state) inside
              called)
          ∙ ran,
      context,
      suspended,
      code,
      ends_as,
    )
