-- ===== src/Samples/Sessions.antt =====
-- A file that is opened, written to and closed.
use optrace.Prelude.{
  ℕ, ◌+◌, ◌≡◌, refl, subst, none, List, [], ◌∷◌, ◌++◌, text, word, arith, zero, suc, ◌==◌,
  if◌then◌else◌,
}
use optrace.Abi.{sys_write, sys_lseek, sys_close}
use optrace.Context.{Context, done}
use optrace.Context.Objects.{fds_of, slot}
use optrace.Context.Syscalls.{decode}
use optrace.Context.Live.{IsLive, Ends}
use optrace.Context.Safety.{StaysLive, Unreadable}
use optrace.Context.Reachable.{register_tracee-Ends}
use optrace.Context.Held.{Call, run_calls, Follows, meaning}
use optrace.Context.Sessions.{run_calls-session}
use optrace.Context.Series.{Session, IsSession, calls_of, run_calls-post_process}
use optrace.Context.PostProcess.{PostProcessed}
use optrace.Prelude.Int.{pos}
use optrace.FileState.Extents.{FileOp, writes, seeks}
use optrace.FileState.{get_file_length}
use optrace.Samples.Files.{host, options, printer}
use optrace.Samples.Runs.{started, open_call, started_run, host_fds}

abbrev call : (number result first second : ℕ) → Call
call number result first second = record {
  thread = 7;
  host = host;
  registers = record {
    orig_rax = number;
    rax = result;
    rdi = first;
    rsi = second;
    rdx = 0;
    r10 = 0;
  };
}

-- Process 7 opens `/t/a`, which has 10 bytes, as descriptor 1.
abbrev pub opening : Call
opening = record { thread = 7; host = host; registers = record open_call { rax = 1 } }

-- 20 bytes at the start, 9 bytes to another file, and 5 bytes at 50.
abbrev pub used : List Call
used =
    call sys_write 20 1 0
    ∷ call sys_write 9 5 0
    ∷ call sys_lseek 50 1 50
    ∷ call sys_write 5 1 0
    ∷ []

abbrev pub closing : Call
closing = call sys_close 0 1 0

abbrev seen : List FileOp
seen = writes 20 ∷ seeks 50 ∷ writes 5 ∷ []

pub started-IsLive : IsLive 7 0 started
started-IsLive =
    subst (Ends (Unreadable host) (StaysLive 7 0)) started_run
      (register_tracee-Ends host 7 options refl host_fds)

follows : Follows 0 1 started.proc_map seen used
unfolding started decode meaning
follows = (
  refl,
  (
    writes 20 ∷ [],
    seeks 50 ∷ writes 5 ∷ [],
    refl,
    refl,
    (
      refl,
      (
        [],
        seeks 50 ∷ writes 5 ∷ [],
        refl,
        refl,
        (
          refl,
          (seeks 50 ∷ [], writes 5 ∷ [], refl, refl, (refl, (writes 5 ∷ [], [], refl, refl, refl))),
        ),
      ),
    ),
  ),
)

run_calls-session_example :
    (c' : Context) × (run_calls (opening ∷ used ++ closing ∷ []) started ≡ done tt c')
    × IsLive 7 0 c'
    × ((b j : ℕ)
        → slot (fds_of b c'.procs) j ≡ (
            if 0 == b
            then (if 1 == j then none else slot (fds_of b started.procs) j)
            else slot (fds_of b started.procs) j))
    × (c'.proc_map ≡ started.proc_map)
    × (word c'.file_storage.output_size ≡ word (started.file_storage.output_size + 45))
unfolding started decode get_file_length
run_calls-session_example =
    run_calls-session 0 1 0x41 (text "/t/a") started opening closing used seen started-IsLive refl
      refl refl follows (omega arith, (omega arith, tt)) refl refl

abbrev pub session : Session
session = record {
  opening = opening;
  used = used;
  closing = closing;
  fd = 1;
  flags = 0x41;
  name = text "/t/a";
  ops = seen;
}

pub session-IsSession : IsSession 0 started.proc_map session
unfolding started decode get_file_length
session-IsSession = record {
  opened_by = refl;
  opens = refl;
  writable = refl;
  link = refl;
  follows = follows;
  in_range = (omega arith, (omega arith, tt));
  closed_by = refl;
  closes = refl;
}

pub started_empty : (b j : ℕ) → slot (fds_of b started.procs) j ≡ none
unfolding started
started_empty zero j = refl
started_empty (suc b) j = refl

-- The file is opened, written to and closed two times.
run_calls-post_process_example :
    (c' : Context) × (c'' : Context) × (run_calls (calls_of (session ∷ session ∷ [])) started
      ≡ done tt c')
    × PostProcessed printer (pos 0) c' c''
    × (c'.proc_map ≡ started.proc_map)
    × (c''.proc_map ≡ [])
    × (word c''.file_storage.output_size ≡ word (started.file_storage.output_size + 90))
unfolding get_file_length
run_calls-post_process_example =
    run_calls-post_process printer 7 0 (session ∷ session ∷ []) started (pos 0) started-IsLive
      started_empty (session-IsSession, (session-IsSession, tt))
