-- ===== src/Samples/Runs.antt =====
-- Command lines and finished system calls.
use optrace.Prelude.{
  ℕ, ◌+◌, ◌≡◌, refl, true, false, none, some, List, [], ◌∷◌, Text, text, arith, length, word,
}
use optrace.Prelude.Int.{ℤ, pos, negsuc}
use optrace.Options.{Options, proceed, get_defaults, main, sigint}
use optrace.Options.CommandLine.{main-forwarding_signals, signals_of}
use optrace.Prelude.Maps.{find, insert, erase, member}
use optrace.Types.{ProcInfoPtr}
use optrace.Storage.{new_storage}
use optrace.Storage.Queue.{list_queue}
use optrace.Utils.{my_highest_fd}
use optrace.Context.Reachable.{HasFds}
use optrace.Context.Twins.{op_dup2-on_open_file}
use optrace.Context.Descriptors.{on_open_file, op_dup2}
use optrace.FileState.{FileState}
use optrace.Context.{Context, new_context, done}
use optrace.Context.Balance.{owed}
use optrace.Context.WellFormed.{IsWellFormed}
use optrace.Context.Lifecycle.{
  register_thread, register_process, register_exec, register_tracee, new_proc_state, fill_fds,
}
use optrace.Context.Forks.{register_thread-IsLive, register_process-IsWellFormed}
use optrace.Context.Execs.{register_exec-IsLive}
use optrace.Context.Runs.{tracee, system_call, Reachable-post_process}
use optrace.Abi.{Registers, sys_openat}
use optrace.Context.Live.{IsLive, Ends}
use optrace.Context.Safety.{StaysLive, Unreadable}
use optrace.Context.Syscalls.{syscall_exit}
use optrace.Context.Exits.{syscall_exit-Ends}
use optrace.Context.PostProcess.{PostProcessed}
use optrace.Samples.Files.{printer, host, options}
use optrace.Samples.Processes.{shell, shell-IsLive, shell-IsWellFormed, shell_known, shell_fresh}

-- All signals are 15 here.
abbrev number : Text → ℤ
number t = pos 15

-- `-s TERM -h -r -1`.
abbrev command_line : List (ℕ × Text)
command_line = (115, text "TERM") ∷ (104, []) ∷ (114, text "-1") ∷ []

abbrev read : Options
unfolding get_defaults
read = record get_defaults { forwarding_signals = pos 2 ∷ pos 15 ∷ []; human_readable_sizes = true }

main-forwarding_signals_example :
    (read.wait_daemons ≡ false)
    × (read.forwarding_signals ≡ sigint ∷ signals_of number command_line)
unfolding read main optrace.Options.check_output
main-forwarding_signals_example =
    main-forwarding_signals number command_line true (λ name append. true) read
      (refl, (refl, (refl, tt))) refl

-- Thread 8 opens `/t/a` for writing as descriptor 9.
abbrev pub open_call : Registers
open_call = record { orig_rax = sys_openat; rax = 9; rdi = 0; rsi = 4096; rdx = 0x41; r10 = 0 }

syscall_exit-Ends_example :
    Ends (Unreadable host) (StaysLive 8 0) (syscall_exit host 8 open_call shell)
unfolding optrace.Context.Syscalls.decode
syscall_exit-Ends_example = syscall_exit-Ends host 8 0 shell shell-IsLive open_call (omega arith)

register_thread-IsLive_example :
    (c' : Context) × (register_thread 8 9 shell ≡ done tt c')
    × IsLive 8 0 c'
    × IsLive 9 0 c'
    × (c'.proc_map ≡ insert 9 0 shell.proc_map)
register_thread-IsLive_example = register_thread-IsLive 8 9 0 shell shell-IsLive shell_fresh

-- Process 7 forks process 9.
register_process-IsWellFormed_example :
    (c' : Context) × (register_process host 7 9 shell ≡ done tt c')
    × IsWellFormed c'
    × (find 9 c'.proc_map ≡ some (length shell.procs))
    × (member 9 c'.group_leaders ≡ true)
    × (c'.file_storage ≡ shell.file_storage)
    × (c'.proc_map ≡ insert 9 (length shell.procs) shell.proc_map)
register_process-IsWellFormed_example =
    register_process-IsWellFormed host 7 9 0 shell shell-IsWellFormed shell_known shell_fresh

register_exec-IsLive_example :
    (c' : Context) × (register_exec host 8 shell ≡ done tt c')
    × IsLive 8 (length shell.procs) c'
    × (c'.proc_map ≡ insert 8 (length shell.procs) (erase 8 shell.proc_map))
register_exec-IsLive_example = register_exec-IsLive host 8 0 shell shell-IsLive

-- A run: process 7 is traced and opens a file.
abbrev tracee_info : ProcInfoPtr
tracee_info = record {
  address = 0;
  info = record { pid = 7; ppid = 0; command_name = []; command_line = [] };
}

unfoldable pub started : Context
unfolding new_storage
started = record {
  options = options;
  group_leaders = 7 ∷ [];
  proc_map = (7, 0) ∷ [];
  file_storage = new_storage list_queue (negsuc 0) false;
  procs = record { fds = []; proc_info = tracee_info } ∷ [];
  files = [];
  kills = [];
}

abbrev pub opened : Context
opened = record started {
  procs = record { fds = none ∷ some 0 ∷ []; proc_info = tracee_info } ∷ [];
  files =
      record { max_pos = 0; curr_pos = 0; flags = 0x41; init_size = 10; filename = text "/t/a" }
      ∷ [];
}

pub host_fds : HasFds host
unfolding my_highest_fd
host_fds = record {
  told_highest = (none, refl);
  not_zero = λ e. absurd (ground arith);
  looked_at = λ fd flags e. absurd (ground arith);
}

pub started_run : register_tracee host 7 (new_context options) ≡ done tt started
unfolding started register_tracee new_context new_proc_state fill_fds
started_run = refl

pub opened_run : syscall_exit host 7 (record open_call { rax = 1 }) started ≡ done tt opened
unfolding syscall_exit optrace.Context.Descriptors.op_open_file started
    optrace.FileState.new_file_state optrace.Context.Objects.resize
opened_run = refl

Reachable-post_process_example :
    (opened.options ≡ options)
    × ((c' : Context) × PostProcessed printer (pos 0) opened c'
        × (c'.proc_map ≡ [])
        × (word c'.file_storage.output_size ≡ word (opened.file_storage.output_size + owed opened)))
unfolding started
Reachable-post_process_example =
    Reachable-post_process host options refl host_fds printer opened (pos 0) (
      system_call host 7 0 (record open_call { rax = 1 }) started opened
        (tracee 7 started started_run) refl (7, refl, refl) opened_run)

-- Thread 8 duplicates descriptor 3 to 5.
op_dup2-on_open_file_example :
    Ends
      (Unreadable host)
      (λ shared c'.
        IsLive 8 0 c'
        × (shared ≡ true
            → (f : FileState → FileState) → on_open_file 8 3 f c' ≡ on_open_file 8 5 f c'))
      (op_dup2 8 3 5 shell)
op_dup2-on_open_file_example = op_dup2-on_open_file host 8 0 3 5 shell shell-IsLive
