-- ===== src/Lib.antt =====
-- Verification of optrace, which runs a program under ptrace and reports the files that its processes
-- write, the largest first.
--
-- The parts, and the files that model them:
--
-- - FileState: TFileState of src/types.cpp and src/types.h, one open file description with its position,
--   its farthest written byte and its length when it was opened. FileState/Extents has the sequences of
--   calls that a file sees, FileState/Flags the close-on-exec flag.
-- - Types: the other records of src/types.h.
-- - Storage: TFileStorage of src/storage.cpp, the queue of the largest files and the total. Its queue is an
--   interface, Storage/Queue, with the laws of std::priority_queue and a list that fills them.
--   Storage/Largest is about what is kept and counted, Storage/Drain about the list that is handed out.
-- - Context: TContext of src/context.cpp, the table of processes with their descriptors. Objects has the
--   heaps, the use counts and TearDownFd; Descriptors the Op functions; Lifecycle the registration of
--   processes, threads and execs, VanishProcess and PostProcess; Syscalls has SyscallExit, from the
--   registers to the Op functions. Steps, Counts, Balance, Vanish, WellFormed, PostProcess, Slots, Live,
--   Safety, Exits, Table, Kept, Twins, Matches, Enrol, Copies, Forks, Execs and Reachable are proofs; Runs has the
--   contexts of whole runs of the tracer, as sequences of the calls that RunTracer of src/optrace.cpp makes.
--   Held and Opened follow the file that one descriptor holds, Sessions a file from its opening to its
--   closing, against the byte ranges of FileState/Extents, and Series one file after the other.
-- - Tracer: RunTracer of src/optrace.cpp. Tracer has its variables, what wait3 and ptrace answer in a round,
--   PtraceSafeCall and the requests of src/ptrace.cpp; Tracer/Rounds the body of the loop, one function per
--   block, with GetCloneFlags and GetSyscallNumber of src/syscall.cpp. Tracer/Program has the start of
--   RunTracer, the options of SetupTracer and the end of TraceProgram; Tracer/Setup the parts of
--   TraceProgram before it, with proofs in Starts; and Tracer/Whole TraceProgram with the fork, TraceMe, and
--   main of src/main.cpp up to its end, with proofs in Endings. Verdicts, Threads, Children, Events and Loop
--   are proofs that the calls of the loop on the context are a run of Context/Runs, if the kernel keeps to
--   what Protocol states; Runs has whole runs. Leads, Exits and Codes are about the result of RunTracer,
--   Stops about the two stops of a system call, Interleaved about those of several threads, Totals about
--   whole runs on a program that writes one file after the other, Births and
--   Orders about the two orders in which a child may be seen first.
-- - Seccomp: the filter of src/bpf_program.cpp and the machine that runs it. It decides at which system
--   calls the tracer stops, and so what SyscallExit sees. Seccomp/Coverage compares the two, and
--   Seccomp/Ends is about the end of its run.
-- - Cores: the search for core files of src/cores.cpp, with the masks in Cores/Masks. Utils: src/utils.cpp,
--   with proofs in Utils/Strings, Digits and Status. Options: src/optrace.h and the
--   command line of src/main.cpp, with proofs in Options/CommandLine.
-- - Sizes: HumanReadableSize of src/utils.cpp, with its static buffer; Sizes/Bounds says when it fits.
-- - Report: PrintReport of src/context.cpp as the text that it writes, which PostProcess calls at its end. Report/Columns is about the sizes,
--   Report/Total about when the text is defined.
-- - Names: StrSyscallName of src/syscall.cpp for both architectures, with the numbers of
--   src/syscall_x86_64.h and src/syscall_aarch64.h, and StrPtraceEventName of src/ptrace.cpp. The kernel's
--   header is a parameter; Names/Switch has the proofs.
-- - Abi: the numbers of the x86_64 interface. Host: what the system answers, a parameter of the model.
-- - Samples: concrete inputs, on which the theorems are applied.
--
-- State and errors. A context is a record; an operation takes it and returns an Outcome: a result and the
-- next context, an abort by a failed assert (the program is built with asserts), an exit with a status, or
-- undefined behaviour. Objects behind shared pointers live in two lists of the context, and a pointer is
-- an index; use_count counts the pointers in the processes that the table still reaches.
--
-- Numbers are natural numbers; a size_t that can overflow is taken modulo 2 ^ 64 (word). Process ids and
-- descriptors stay below 2 ^ 31, as the kernel's do, and memory is not short: a vector grows to any such
-- descriptor. Loops over descriptors recurse on the number of
-- slots. The loop of PostProcess has the number of entries of the table as fuel, since each round takes
-- one entry out; the theorem on it shows that the table ends empty.
--
-- The loop of RunTracer is infinite and has no fuel: it is run over a list of rounds, each with what the
-- system answers in it.
--
-- Not modelled: a -1 that PTRACE_PEEKUSER returns as the value of a register, where the code looks at errno;
-- the text of the help in src/main.cpp; the branches of aarch64 but for the names
-- (PtraceSetRegs of src/ptrace.cpp, the registers, the filter); SyscallEnter of src/context.cpp, whose body
-- is empty; and the build files.
pub mod Prelude
pub mod FileState
pub mod Types
pub mod Host
pub mod Names
pub mod Options
pub mod Utils
pub mod Storage
pub mod Cores
pub mod Abi
pub mod Context
pub mod Seccomp
pub mod Tracer
pub mod Sizes
pub mod Report
pub mod Samples
