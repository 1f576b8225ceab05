-- ===== src/Names/Fallbacks.antt =====
-- The numbers that src/syscall_x86_64.h and src/syscall_aarch64.h define where the header of the kernel
-- has none.
use optrace.Prelude.{ℕ, List, [], ◌∷◌, Text, text}

unfoldable pub x86_64_fallbacks : List (Text × ℕ)
x86_64_fallbacks =
    (text "SYS_recvmmsg", 299)
    ∷ (text "SYS_fanotify_init", 300)
    ∷ (text "SYS_fanotify_mark", 301)
    ∷ (text "SYS_prlimit64", 302)
    ∷ (text "SYS_name_to_handle_at", 303)
    ∷ (text "SYS_open_by_handle_at", 304)
    ∷ (text "SYS_clock_adjtime", 305)
    ∷ (text "SYS_syncfs", 306)
    ∷ (text "SYS_sendmmsg", 307)
    ∷ (text "SYS_setns", 308)
    ∷ (text "SYS_getcpu", 309)
    ∷ (text "SYS_process_vm_readv", 310)
    ∷ (text "SYS_process_vm_writev", 311)
    ∷ (text "SYS_kcmp", 312)
    ∷ (text "SYS_finit_module", 313)
    ∷ (text "SYS_sched_setattr", 314)
    ∷ (text "SYS_sched_getattr", 315)
    ∷ (text "SYS_renameat2", 316)
    ∷ (text "SYS_seccomp", 317)
    ∷ (text "SYS_getrandom", 318)
    ∷ (text "SYS_memfd_create", 319)
    ∷ (text "SYS_kexec_file_load", 320)
    ∷ (text "SYS_bpf", 321)
    ∷ (text "SYS_execveat", 322)
    ∷ (text "SYS_userfaultfd", 323)
    ∷ (text "SYS_membarrier", 324)
    ∷ (text "SYS_mlock2", 325)
    ∷ (text "SYS_copy_file_range", 326)
    ∷ (text "SYS_preadv2", 327)
    ∷ (text "SYS_pwritev2", 328)
    ∷ (text "SYS_pkey_mprotect", 329)
    ∷ (text "SYS_pkey_alloc", 330)
    ∷ (text "SYS_pkey_free", 331)
    ∷ (text "SYS_statx", 332)
    ∷ []

unfoldable pub aarch64_fallbacks : List (Text × ℕ)
aarch64_fallbacks =
    (text "SYS_recvmmsg", 243)
    ∷ (text "SYS_fanotify_init", 262)
    ∷ (text "SYS_fanotify_mark", 263)
    ∷ (text "SYS_prlimit64", 261)
    ∷ (text "SYS_name_to_handle_at", 264)
    ∷ (text "SYS_open_by_handle_at", 265)
    ∷ (text "SYS_clock_adjtime", 266)
    ∷ (text "SYS_syncfs", 267)
    ∷ (text "SYS_sendmmsg", 269)
    ∷ (text "SYS_setns", 268)
    ∷ (text "SYS_getcpu", 168)
    ∷ (text "SYS_process_vm_readv", 270)
    ∷ (text "SYS_process_vm_writev", 271)
    ∷ (text "SYS_kcmp", 272)
    ∷ (text "SYS_finit_module", 273)
    ∷ (text "SYS_sched_setattr", 274)
    ∷ (text "SYS_sched_getattr", 275)
    ∷ (text "SYS_renameat2", 275)
    ∷ (text "SYS_seccomp", 277)
    ∷ (text "SYS_getrandom", 278)
    ∷ (text "SYS_memfd_create", 279)
    ∷ (text "SYS_bpf", 280)
    ∷ (text "SYS_execveat", 281)
    ∷ (text "SYS_userfaultfd", 282)
    ∷ (text "SYS_membarrier", 283)
    ∷ (text "SYS_mlock2", 284)
    ∷ (text "SYS_copy_file_range", 285)
    ∷ (text "SYS_preadv2", 286)
    ∷ (text "SYS_pwritev2", 287)
    ∷ (text "SYS_pkey_mprotect", 288)
    ∷ (text "SYS_pkey_alloc", 289)
    ∷ (text "SYS_pkey_free", 290)
    ∷ (text "SYS_statx", 291)
    ∷ []
