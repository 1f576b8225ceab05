-- ===== src/Samples/Files.antt =====
-- Files, the storage and the filter.
use mathlib.Core.List.{Perm}
use optrace.Prelude.{
  ℕ, ◌≡◌, refl, true, false, none, some, List, [], ◌∷◌, map, text, arith, if◌then◌else◌, zero, suc,
  ◌+◌, ◌*◌, ◌/◌, ◌^◌, Text, ◌++◌, replicate,
}
use optrace.Prelude.Int.{pos, negsuc}
use optrace.Prelude.Texts.{text_eq}
use optrace.Prelude.Bits.{bit}
use optrace.Host.{Host}
use optrace.Sizes.{Libc}
use optrace.Report.{Printer}
use optrace.Options.{Options}
use optrace.FileState.{FileState, get_output_size, set_cloexec_flag}
use optrace.FileState.Extents.{
  FileOp, writes, pwrites, seeks, flags, cloexec, apply_all, get_output_size-apply_all,
}
use optrace.FileState.Flags.{bit-set_cloexec_flag}
use optrace.Types.{ProcInfoPtr, OutputFile}
use optrace.Storage.{Storage, new_storage, get_largest_files}
use optrace.Storage.Queue.{list_queue}
use optrace.Storage.Drain.{Descending, get_largest_files-Descending}
use optrace.Storage.Largest.{Keeps, add_all, accepted, add_all-new_storage-Keeps, add_all-total}
use optrace.Abi.{Registers, sys_open}
use optrace.Context.{new_context, done}
use optrace.Context.Syscalls.{syscall_exit}
use optrace.Seccomp.{
  verdict, data_of, run, open_block, openat_block, fcntl_block, syscall_blocks, seccomp_ret_allow,
  seccomp_ret_trace,
}
use optrace.Seccomp.Coverage.{verdict-allow}

-- Ten bytes stand in the file already; the flags are `O_WRONLY | O_CLOEXEC`.
abbrev file : FileState
file = record { max_pos = 0; curr_pos = 0; flags = 0x80001; init_size = 10; filename = text "/t/a" }

abbrev calls : List FileOp
calls = writes 6 ∷ pwrites 5 20 ∷ seeks 3 ∷ cloexec true ∷ flags 1 ∷ writes 9 ∷ []

get_output_size-apply_all_example : get_output_size (apply_all calls file) ≡ 15
get_output_size-apply_all_example = get_output_size-apply_all calls file (omega arith)

bit-set_cloexec_flag_example :
    (bit 19 (set_cloexec_flag false file).flags ≡ 0)
    × ((set_cloexec_flag false file).curr_pos ≡ 0)
    × ((set_cloexec_flag false file).max_pos ≡ 0)
    × ((set_cloexec_flag false file).init_size ≡ 10)
bit-set_cloexec_flag_example = bit-set_cloexec_flag false file 19 (omega arith)

abbrev pub info : ProcInfoPtr
info = record {
  address = 0;
  info = record { pid = 7; ppid = 0; command_name = text "sh"; command_line = text "sh -c x" };
}

abbrev entry : ℕ → OutputFile
entry n = record { size = n; filename = text "/t/a"; proc_info = info }

abbrev entries : List OutputFile
entries = entry 4 ∷ entry 9 ∷ entry 0 ∷ entry 1 ∷ entry 7 ∷ []

-- The two largest of the entries are reported, the larger one first.
largest_two :
    get_largest_files list_queue (add_all list_queue entries (new_storage list_queue (pos 2) false))
    ≡ some (entry 9) ∷ some (entry 7) ∷ []
unfolding get_largest_files add_all new_storage optrace.Storage.add_file_entry
    optrace.Storage.Queue.list_pop optrace.Storage.Queue.list_top optrace.Storage.Queue.extract
largest_two = refl

add_all-new_storage-Keeps_example :
    Keeps 2
      (accepted false entries)
      (list_queue.items (add_all list_queue entries (new_storage list_queue (pos 2) false)).queue)
add_all-new_storage-Keeps_example = add_all-new_storage-Keeps list_queue entries 1 false

add_all-total_example :
    (add_all list_queue entries (new_storage list_queue (pos 2) false)).output_size ≡ 21
unfolding new_storage
add_all-total_example =
    add_all-total list_queue entries (new_storage list_queue (pos 2) false) (omega arith)

abbrev two_largest : Storage list_queue
two_largest = add_all list_queue entries (new_storage list_queue (pos 2) false)

get_largest_files-Descending_example :
    (fs : List OutputFile) × (get_largest_files list_queue two_largest ≡ map some fs)
    × Perm fs (list_queue.items two_largest.queue)
    × Descending fs
get_largest_files-Descending_example = get_largest_files-Descending list_queue two_largest

-- A status of 519 bytes.
abbrev status : Text
status = text "FDSize: 0" ++ replicate 510 0x0a

abbrev pub host : Host
host = record {
  read_file = λ f. if text_eq f (text "/proc/self/status") then some status else none;
  stat = λ f. some 10;
  read_link = λ f. some (text "/t/a");
  getcwd = some (text "/t");
  read_dir = λ d. none;
  fnmatch = λ p s. false;
  fd_flags = λ fd. none;
  fd_is_file = λ fd. some false;
}

-- The logarithm counts divisions.
unfoldable pub log_fuel : (base fuel n : ℕ) → ℕ
log_fuel base zero n = 0
log_fuel base (suc fuel) n = elim (n / base) [ zero ↦ 0 | suc m ↦ suc (log_fuel base fuel (suc m)) ]

abbrev pub libc : Libc
libc = record {
  log2 = log_fuel 2 64;
  log10 = log_fuel 10 20;
  tenths = λ bytes k. (20 * bytes + 1024 ^ k) / (2 * 1024 ^ k);
}

abbrev pub printer : Printer
printer = record { libc = libc; iteration = λ ps. ps }

abbrev pub options : Options
options = record {
  output = [];
  append_output = false;
  follow_forks = true;
  wait_daemons = false;
  jail_forks = true;
  human_readable_sizes = false;
  files_in_report = negsuc 0;
  command_length_limit = pos 120;
  use_sec_comp = true;
  search_for_core_dumps = true;
  forwarding_signals = pos 2 ∷ [];
  forward_all_signals = false;
  store_empty_files = false;
  interruption_target = [];
  interruption_signal = pos 0;
}

-- `open(path, O_RDONLY | O_CLOEXEC)` that returned 5.
abbrev read_only : Registers
read_only = record { orig_rax = sys_open; rax = 5; rdi = 4096; rsi = 0x80000; rdx = 0; r10 = 0 }

read_only-verdict : verdict (data_of read_only) ≡ some seccomp_ret_allow
unfolding verdict run open_block openat_block fcntl_block syscall_blocks
read_only-verdict = refl

-- The same call for writing is stopped at.
write_verdict : verdict (data_of (record read_only { rsi = 0x80001 })) ≡ some seccomp_ret_trace
unfolding verdict run open_block openat_block fcntl_block syscall_blocks
write_verdict = refl

verdict-allow_example :
    syscall_exit host 7 read_only (new_context options) ≡ done tt (new_context options)
verdict-allow_example = verdict-allow host 7 read_only (new_context options) read_only-verdict refl
