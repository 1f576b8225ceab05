-- ===== src/Context/Series.antt =====
-- One file after the other: what a series of sessions leaves in the report.
use optrace.Prelude.{
  ℕ, ◌+◌, ◌-◌, ◌≡◌, refl, sym, ap, subst, ◌∙◌, true, some, List, [], ◌∷◌, ◌++◌, Text, All, arith,
  word, ◌⊎◌, inl, inr, none, ◌==◌, if◌then◌else◌, Bool-cases,
}
use optrace.Prelude.Maps.{find}
use optrace.Prelude.Int.{ℤ}
use optrace.FileState.{get_file_length}
use optrace.FileState.Extents.{FileOp, ends, farthest, InRange}
use optrace.Context.{Context, done}
use optrace.Context.Objects.{fds_of, slot, use_count}
use optrace.Context.Descriptors.{fd_path, opens_for_writing}
use optrace.Context.Steps.{and_then-done}
use optrace.Context.Syscalls.{open_file, close, decode}
use optrace.Context.Balance.{owed}
use optrace.Report.{Printer}
use optrace.Context.PostProcess.{PostProcessed, post_process-total, owed_from_nil}
use optrace.Context.Opened.{count_refs-unheld}
use optrace.Context.Live.{IsLive}
use optrace.Context.Held.{Call, run_calls, Follows}
use optrace.Context.Sessions.{first_position, run_calls-append, run_calls-session}

-- A file from its opening to its closing: the calls, and what they mean.
pub record Session : Type 0 where
  pub opening : Call
  pub used : List Call
  pub closing : Call
  pub fd : ℕ
  pub flags : ℕ
  pub name : Text
  pub ops : List FileOp

-- The length of the file when it is opened.
abbrev pub length_before : Session → ℕ
length_before s = get_file_length (s.opening.host.stat s.name)

-- The calls are of threads of the process at `a`, and mean what the session says: a file is opened for
-- writing, whose name can be read; then come calls on files, of which `ops` are those on this one;
-- and the descriptor is closed.
pub record IsSession (a : ℕ) (m : List (ℕ × ℕ)) (s : Session) : Type 0 where
  pub opened_by : find s.opening.thread m ≡ some a
  pub opens : decode s.opening.registers ≡ open_file s.fd s.flags
  pub writable : opens_for_writing s.flags ≡ true
  pub link : s.opening.host.read_link (fd_path s.opening.thread s.fd) ≡ some s.name
  pub follows : Follows a s.fd m s.ops s.used
  pub in_range : InRange (first_position s.flags (length_before s)) s.ops
  pub closed_by : find s.closing.thread m ≡ some a
  pub closes : decode s.closing.registers ≡ close s.fd

abbrev pub calls_of : List Session → List Call
calls_of [] = []
calls_of (s ∷ ss) = (s.opening ∷ s.used ++ s.closing ∷ []) ++ calls_of ss

-- How far the writes went past the end of the file.
abbrev pub growth : Session → ℕ
growth s = farthest 0 (ends (first_position s.flags (length_before s)) s.ops) - length_before s

abbrev pub all_growth : List Session → ℕ
all_growth [] = 0
all_growth (s ∷ ss) = growth s + all_growth ss

-- Any thread of a live process is live.
IsLive-thread :
    (pid thread a : ℕ) (c : Context)
    → IsLive pid a c
    → find thread c.proc_map ≡ some a
    → IsLive thread a c
IsLive-thread pid thread a c live known = record {
  well_formed = live.well_formed;
  known = known;
  leader = live.leader;
  counted = live.counted;
}

-- Sums of words add up.
word-step :
    (t u v g rest : ℕ)
    → word u ≡ word (t + g)
    → word v ≡ word (u + rest)
    → word v ≡ word (t + (g + rest))
word-step t u v g rest e f = omega (arith, e, f)

-- Every slot holds what it held, or nothing.
abbrev pub HoldsNoMore : Context → Context → Type 0
HoldsNoMore c c' =
    (b j : ℕ)
    → (slot (fds_of b c'.procs) j ≡ slot (fds_of b c.procs) j) ⊎ (slot (fds_of b c'.procs) j ≡ none)

HoldsNoMore-trans : (c d e : Context) → HoldsNoMore c d → HoldsNoMore d e → HoldsNoMore c e
HoldsNoMore-trans c d e p q b j = elim (q b j) [
  | inr gone ↦ inr gone
  | inl same ↦ elim (p b j) [ inl before ↦ inl (same ∙ before) | inr gone ↦ inr (same ∙ gone) ]
]

cleared-HoldsNoMore :
    (a fd : ℕ) (c d : Context)
    → ((b j : ℕ)
        → slot (fds_of b d.procs) j ≡ (
            if a == b
            then (if fd == j then none else slot (fds_of b c.procs) j)
            else slot (fds_of b c.procs) j))
    → HoldsNoMore c d
cleared-HoldsNoMore a fd c d slots b j = elim (Bool-cases (a == b)) [
  | inr other ↦ inl (ground (arith, slots b j))
  | inl same ↦ elim (Bool-cases (fd == j)) [
    | inl here ↦ inr (ground (arith, slots b j))
    | inr there ↦ inl (ground (arith, slots b j))
  ]
]

-- All sessions, one after the other.
pub run_calls-series :
    (pid a : ℕ) (ss : List Session) (c : Context)
    → IsLive pid a c
    → All (IsSession a c.proc_map) ss
    → (c' : Context) × (run_calls (calls_of ss) c ≡ done tt c')
      × IsLive pid a c'
      × HoldsNoMore c c'
      × (c'.proc_map ≡ c.proc_map)
      × (word c'.file_storage.output_size ≡ word (c.file_storage.output_size + all_growth ss))
unfolding run_calls
run_calls-series pid a [] c live all = (c, refl, live, λ b j. inl refl, refl, omega arith)
run_calls-series pid a (s ∷ ss) c live (here, rest) =
    let (d, run, alive, slots, same, total) =
      run_calls-session a s.fd s.flags s.name c s.opening s.closing s.used s.ops
        (IsLive-thread pid s.opening.thread a c live here.opened_by) here.opens here.writable
        here.link here.follows here.in_range here.closed_by here.closes in
    let live' = IsLive-thread s.opening.thread pid a d alive (ap (find pid) same ∙ live.known) in
    let (c', ran, last, fewer, still, sum) =
      run_calls-series pid a ss d live' (subst (λ m. All (IsSession a m) ss) (sym same) rest) in
    (
      c',
      run_calls-append (s.opening ∷ s.used ++ s.closing ∷ []) (calls_of ss) c
          ∙ and_then-done (run_calls (s.opening ∷ s.used ++ s.closing ∷ []) c) _ run
          ∙ ran,
      last,
      HoldsNoMore-trans c d c' (cleared-HoldsNoMore a s.fd c d slots) fewer,
      still ∙ same,
      word-step c.file_storage.output_size d.file_storage.output_size c'.file_storage.output_size
          (growth s) (all_growth ss) total sum,
    )

-- Where no slot holds a pointer, and none is added, nothing is owed.
pub owed-HoldsNoMore :
    (c c' : Context)
    → ((b j : ℕ) → slot (fds_of b c.procs) j ≡ none)
    → HoldsNoMore c c'
    → owed c' ≡ 0
unfolding owed use_count
owed-HoldsNoMore c c' empty fewer = owed_from_nil (use_count c') 0 c'.files (λ r.
    count_refs-unheld c'.proc_map r 0 c'.procs (λ b j e. absurd (elim (fewer b j) [
      | inl same ↦ ground (arith, e, empty b j)
      | inr gone ↦ ground (arith, e)
    ])))

-- Threads of a live process, where no file is open, open, use and close files, one after the other, as in
-- `IsSession`: the name of every file can be read, and no written range ends past `2 ^ 64`. If the
-- report limit is not 0, all the calls return, the process table is as before, and the loop of
-- `PostProcess` then ends with no process left and a total that has grown, modulo `2 ^ 64`, by what
-- each of the files has grown past its length at the opening. `PostProcess` prints the report and
-- returns its argument, unless `-h` is given and a size in the report has no text that is defined,
-- where it leaves what the language defines.
pub run_calls-post_process :
    (p : Printer) (pid a : ℕ) (ss : List Session) (c : Context) (rc : ℤ)
    → IsLive pid a c
    → ((b j : ℕ) → slot (fds_of b c.procs) j ≡ none)
    → All (IsSession a c.proc_map) ss
    → (c' : Context) × (c'' : Context) × (run_calls (calls_of ss) c ≡ done tt c')
      × PostProcessed p rc c' c''
      × (c'.proc_map ≡ c.proc_map)
      × (c''.proc_map ≡ [])
      × (word c''.file_storage.output_size ≡ word (c.file_storage.output_size + all_growth ss))
run_calls-post_process p pid a ss c rc live empty all =
    let (c', run, last, fewer, same, sum) = run_calls-series pid a ss c live all in
    let (c'', ends, gone, total) = post_process-total p rc c' last.well_formed last.counted in
    let nothing_owed : c'.file_storage.output_size + owed c' ≡ c'.file_storage.output_size + 0 =
      ap (λ (n : ℕ). c'.file_storage.output_size + n) (owed-HoldsNoMore c c' empty fewer) in
    (c', c'', run, ends, same, gone, total ∙ omega (arith, nothing_owed, sum))
