-- ===== src/Names/X86.antt =====
-- The cases of `StrSyscallName` in src/syscall.cpp that only x86_64 has.
use optrace.Prelude.{List, [], ◌∷◌, Text, text}

unfoldable pub x86_64_cases : List Text
x86_64_cases =
    text "SYS__sysctl"
    ∷ text "SYS_access"
    ∷ text "SYS_afs_syscall"
    ∷ text "SYS_alarm"
    ∷ text "SYS_arch_prctl"
    ∷ text "SYS_chmod"
    ∷ text "SYS_chown"
    ∷ text "SYS_copy_file_range"
    ∷ text "SYS_creat"
    ∷ text "SYS_create_module"
    ∷ text "SYS_dup2"
    ∷ text "SYS_epoll_create"
    ∷ text "SYS_epoll_ctl_old"
    ∷ text "SYS_epoll_wait"
    ∷ text "SYS_epoll_wait_old"
    ∷ text "SYS_eventfd"
    ∷ text "SYS_fork"
    ∷ text "SYS_futimesat"
    ∷ text "SYS_get_kernel_syms"
    ∷ text "SYS_get_thread_area"
    ∷ text "SYS_getdents"
    ∷ text "SYS_getpgrp"
    ∷ text "SYS_getpmsg"
    ∷ text "SYS_inotify_init"
    ∷ text "SYS_ioperm"
    ∷ text "SYS_iopl"
    ∷ text "SYS_kexec_file_load"
    ∷ text "SYS_lchown"
    ∷ text "SYS_link"
    ∷ text "SYS_lstat"
    ∷ text "SYS_mkdir"
    ∷ text "SYS_mknod"
    ∷ text "SYS_modify_ldt"
    ∷ text "SYS_open"
    ∷ text "SYS_pause"
    ∷ text "SYS_pipe"
    ∷ text "SYS_poll"
    ∷ text "SYS_putpmsg"
    ∷ text "SYS_query_module"
    ∷ text "SYS_readlink"
    ∷ text "SYS_rename"
    ∷ text "SYS_rmdir"
    ∷ text "SYS_security"
    ∷ text "SYS_select"
    ∷ text "SYS_set_thread_area"
    ∷ text "SYS_signalfd"
    ∷ text "SYS_stat"
    ∷ text "SYS_symlink"
    ∷ text "SYS_sysfs"
    ∷ text "SYS_time"
    ∷ text "SYS_tuxcall"
    ∷ text "SYS_unlink"
    ∷ text "SYS_uselib"
    ∷ text "SYS_ustat"
    ∷ text "SYS_utime"
    ∷ text "SYS_utimes"
    ∷ text "SYS_vfork"
    ∷ text "SYS_vserver"
    ∷ []
