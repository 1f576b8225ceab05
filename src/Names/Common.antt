-- ===== src/Names/Common.antt =====
-- The cases of `StrSyscallName` in src/syscall.cpp that both architectures have, first part.
use optrace.Prelude.{List, [], ◌∷◌, Text, text}

-- Up to `SYS_nanosleep`.
unfoldable pub first_cases : List Text
first_cases =
    text "SYS_accept"
    ∷ text "SYS_accept4"
    ∷ text "SYS_acct"
    ∷ text "SYS_add_key"
    ∷ text "SYS_adjtimex"
    ∷ text "SYS_bind"
    ∷ text "SYS_bpf"
    ∷ text "SYS_brk"
    ∷ text "SYS_capget"
    ∷ text "SYS_capset"
    ∷ text "SYS_chdir"
    ∷ text "SYS_chroot"
    ∷ text "SYS_clock_adjtime"
    ∷ text "SYS_clock_getres"
    ∷ text "SYS_clock_gettime"
    ∷ text "SYS_clock_nanosleep"
    ∷ text "SYS_clock_settime"
    ∷ text "SYS_clone"
    ∷ text "SYS_close"
    ∷ text "SYS_connect"
    ∷ text "SYS_delete_module"
    ∷ text "SYS_dup"
    ∷ text "SYS_dup3"
    ∷ text "SYS_epoll_create1"
    ∷ text "SYS_epoll_ctl"
    ∷ text "SYS_epoll_pwait"
    ∷ text "SYS_eventfd2"
    ∷ text "SYS_execve"
    ∷ text "SYS_execveat"
    ∷ text "SYS_exit"
    ∷ text "SYS_exit_group"
    ∷ text "SYS_faccessat"
    ∷ text "SYS_fadvise64"
    ∷ text "SYS_fallocate"
    ∷ text "SYS_fanotify_init"
    ∷ text "SYS_fanotify_mark"
    ∷ text "SYS_fchdir"
    ∷ text "SYS_fchmod"
    ∷ text "SYS_fchmodat"
    ∷ text "SYS_fchown"
    ∷ text "SYS_fchownat"
    ∷ text "SYS_fcntl"
    ∷ text "SYS_fdatasync"
    ∷ text "SYS_fgetxattr"
    ∷ text "SYS_finit_module"
    ∷ text "SYS_flistxattr"
    ∷ text "SYS_flock"
    ∷ text "SYS_fremovexattr"
    ∷ text "SYS_fsetxattr"
    ∷ text "SYS_fstat"
    ∷ text "SYS_fstatfs"
    ∷ text "SYS_fsync"
    ∷ text "SYS_ftruncate"
    ∷ text "SYS_futex"
    ∷ text "SYS_get_mempolicy"
    ∷ text "SYS_get_robust_list"
    ∷ text "SYS_getcpu"
    ∷ text "SYS_getcwd"
    ∷ text "SYS_getdents64"
    ∷ text "SYS_getegid"
    ∷ text "SYS_geteuid"
    ∷ text "SYS_getgid"
    ∷ text "SYS_getgroups"
    ∷ text "SYS_getitimer"
    ∷ text "SYS_getpeername"
    ∷ text "SYS_getpgid"
    ∷ text "SYS_getpid"
    ∷ text "SYS_getppid"
    ∷ text "SYS_getpriority"
    ∷ text "SYS_getrandom"
    ∷ text "SYS_getresgid"
    ∷ text "SYS_getresuid"
    ∷ text "SYS_getrlimit"
    ∷ text "SYS_getrusage"
    ∷ text "SYS_getsid"
    ∷ text "SYS_getsockname"
    ∷ text "SYS_getsockopt"
    ∷ text "SYS_gettid"
    ∷ text "SYS_gettimeofday"
    ∷ text "SYS_getuid"
    ∷ text "SYS_getxattr"
    ∷ text "SYS_init_module"
    ∷ text "SYS_inotify_add_watch"
    ∷ text "SYS_inotify_init1"
    ∷ text "SYS_inotify_rm_watch"
    ∷ text "SYS_io_cancel"
    ∷ text "SYS_io_destroy"
    ∷ text "SYS_io_getevents"
    ∷ text "SYS_io_setup"
    ∷ text "SYS_io_submit"
    ∷ text "SYS_ioctl"
    ∷ text "SYS_ioprio_get"
    ∷ text "SYS_ioprio_set"
    ∷ text "SYS_kcmp"
    ∷ text "SYS_kexec_load"
    ∷ text "SYS_keyctl"
    ∷ text "SYS_kill"
    ∷ text "SYS_lgetxattr"
    ∷ text "SYS_linkat"
    ∷ text "SYS_listen"
    ∷ text "SYS_listxattr"
    ∷ text "SYS_llistxattr"
    ∷ text "SYS_lookup_dcookie"
    ∷ text "SYS_lremovexattr"
    ∷ text "SYS_lseek"
    ∷ text "SYS_lsetxattr"
    ∷ text "SYS_madvise"
    ∷ text "SYS_mbind"
    ∷ text "SYS_membarrier"
    ∷ text "SYS_memfd_create"
    ∷ text "SYS_migrate_pages"
    ∷ text "SYS_mincore"
    ∷ text "SYS_mkdirat"
    ∷ text "SYS_mknodat"
    ∷ text "SYS_mlock"
    ∷ text "SYS_mlock2"
    ∷ text "SYS_mlockall"
    ∷ text "SYS_mmap"
    ∷ text "SYS_mount"
    ∷ text "SYS_move_pages"
    ∷ text "SYS_mprotect"
    ∷ text "SYS_mq_getsetattr"
    ∷ text "SYS_mq_notify"
    ∷ text "SYS_mq_open"
    ∷ text "SYS_mq_timedreceive"
    ∷ text "SYS_mq_timedsend"
    ∷ text "SYS_mq_unlink"
    ∷ text "SYS_mremap"
    ∷ text "SYS_msgctl"
    ∷ text "SYS_msgget"
    ∷ text "SYS_msgrcv"
    ∷ text "SYS_msgsnd"
    ∷ text "SYS_msync"
    ∷ text "SYS_munlock"
    ∷ text "SYS_munlockall"
    ∷ text "SYS_munmap"
    ∷ text "SYS_name_to_handle_at"
    ∷ text "SYS_nanosleep"
    ∷ []
