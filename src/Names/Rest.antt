-- ===== src/Names/Rest.antt =====
-- The cases of `StrSyscallName` in src/syscall.cpp that both architectures have, second part.
use optrace.Prelude.{List, [], ◌∷◌, Text, text}

-- The rest, from `SYS_newfstatat` on.
unfoldable pub last_cases : List Text
last_cases =
    text "SYS_newfstatat"
    ∷ text "SYS_nfsservctl"
    ∷ text "SYS_open_by_handle_at"
    ∷ text "SYS_openat"
    ∷ text "SYS_perf_event_open"
    ∷ text "SYS_personality"
    ∷ text "SYS_pipe2"
    ∷ text "SYS_pivot_root"
    ∷ text "SYS_pkey_alloc"
    ∷ text "SYS_pkey_free"
    ∷ text "SYS_pkey_mprotect"
    ∷ text "SYS_ppoll"
    ∷ text "SYS_prctl"
    ∷ text "SYS_pread64"
    ∷ text "SYS_preadv"
    ∷ text "SYS_preadv2"
    ∷ text "SYS_prlimit64"
    ∷ text "SYS_process_vm_readv"
    ∷ text "SYS_process_vm_writev"
    ∷ text "SYS_pselect6"
    ∷ text "SYS_ptrace"
    ∷ text "SYS_pwrite64"
    ∷ text "SYS_pwritev"
    ∷ text "SYS_pwritev2"
    ∷ text "SYS_quotactl"
    ∷ text "SYS_read"
    ∷ text "SYS_readahead"
    ∷ text "SYS_readlinkat"
    ∷ text "SYS_readv"
    ∷ text "SYS_reboot"
    ∷ text "SYS_recvfrom"
    ∷ text "SYS_recvmmsg"
    ∷ text "SYS_recvmsg"
    ∷ text "SYS_remap_file_pages"
    ∷ text "SYS_removexattr"
    ∷ text "SYS_renameat"
    ∷ text "SYS_renameat2"
    ∷ text "SYS_request_key"
    ∷ text "SYS_restart_syscall"
    ∷ text "SYS_rt_sigaction"
    ∷ text "SYS_rt_sigpending"
    ∷ text "SYS_rt_sigprocmask"
    ∷ text "SYS_rt_sigqueueinfo"
    ∷ text "SYS_rt_sigreturn"
    ∷ text "SYS_rt_sigsuspend"
    ∷ text "SYS_rt_sigtimedwait"
    ∷ text "SYS_rt_tgsigqueueinfo"
    ∷ text "SYS_sched_get_priority_max"
    ∷ text "SYS_sched_get_priority_min"
    ∷ text "SYS_sched_getaffinity"
    ∷ text "SYS_sched_getattr"
    ∷ text "SYS_sched_getparam"
    ∷ text "SYS_sched_getscheduler"
    ∷ text "SYS_sched_rr_get_interval"
    ∷ text "SYS_sched_setaffinity"
    ∷ text "SYS_sched_setattr"
    ∷ text "SYS_sched_setparam"
    ∷ text "SYS_sched_setscheduler"
    ∷ text "SYS_sched_yield"
    ∷ text "SYS_seccomp"
    ∷ text "SYS_semctl"
    ∷ text "SYS_semget"
    ∷ text "SYS_semop"
    ∷ text "SYS_semtimedop"
    ∷ text "SYS_sendfile"
    ∷ text "SYS_sendmmsg"
    ∷ text "SYS_sendmsg"
    ∷ text "SYS_sendto"
    ∷ text "SYS_set_mempolicy"
    ∷ text "SYS_set_robust_list"
    ∷ text "SYS_set_tid_address"
    ∷ text "SYS_setdomainname"
    ∷ text "SYS_setfsgid"
    ∷ text "SYS_setfsuid"
    ∷ text "SYS_setgid"
    ∷ text "SYS_setgroups"
    ∷ text "SYS_sethostname"
    ∷ text "SYS_setitimer"
    ∷ text "SYS_setns"
    ∷ text "SYS_setpgid"
    ∷ text "SYS_setpriority"
    ∷ text "SYS_setregid"
    ∷ text "SYS_setresgid"
    ∷ text "SYS_setresuid"
    ∷ text "SYS_setreuid"
    ∷ text "SYS_setrlimit"
    ∷ text "SYS_setsid"
    ∷ text "SYS_setsockopt"
    ∷ text "SYS_settimeofday"
    ∷ text "SYS_setuid"
    ∷ text "SYS_setxattr"
    ∷ text "SYS_shmat"
    ∷ text "SYS_shmctl"
    ∷ text "SYS_shmdt"
    ∷ text "SYS_shmget"
    ∷ text "SYS_shutdown"
    ∷ text "SYS_sigaltstack"
    ∷ text "SYS_signalfd4"
    ∷ text "SYS_socket"
    ∷ text "SYS_socketpair"
    ∷ text "SYS_splice"
    ∷ text "SYS_statfs"
    ∷ text "SYS_statx"
    ∷ text "SYS_swapoff"
    ∷ text "SYS_swapon"
    ∷ text "SYS_symlinkat"
    ∷ text "SYS_sync"
    ∷ text "SYS_sync_file_range"
    ∷ text "SYS_syncfs"
    ∷ text "SYS_sysinfo"
    ∷ text "SYS_syslog"
    ∷ text "SYS_tee"
    ∷ text "SYS_tgkill"
    ∷ text "SYS_timer_create"
    ∷ text "SYS_timer_delete"
    ∷ text "SYS_timer_getoverrun"
    ∷ text "SYS_timer_gettime"
    ∷ text "SYS_timer_settime"
    ∷ text "SYS_timerfd_create"
    ∷ text "SYS_timerfd_gettime"
    ∷ text "SYS_timerfd_settime"
    ∷ text "SYS_times"
    ∷ text "SYS_tkill"
    ∷ text "SYS_truncate"
    ∷ text "SYS_umask"
    ∷ text "SYS_umount2"
    ∷ text "SYS_uname"
    ∷ text "SYS_unlinkat"
    ∷ text "SYS_unshare"
    ∷ text "SYS_userfaultfd"
    ∷ text "SYS_utimensat"
    ∷ text "SYS_vhangup"
    ∷ text "SYS_vmsplice"
    ∷ text "SYS_wait4"
    ∷ text "SYS_waitid"
    ∷ text "SYS_write"
    ∷ text "SYS_writev"
    ∷ []
