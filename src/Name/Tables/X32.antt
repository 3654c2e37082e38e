-- ===== src/Name/Tables/X32.antt =====
-- pinktrace/linux/x32/syscallent.h: the system calls of the x32 ABI.
-- Line 245 has no comma, so its literal and that of line 246 are one entry.
use Prim.Native.String.{String}
use pinktrace.Prelude.{List, [], ◌∷◌, ◌++◌, Option, none, some}

unfoldable pub sysent_x32_low : List (Option String)
sysent_x32_low =
    some "read"
    ∷ some "write"
    ∷ some "open"
    ∷ some "close"
    ∷ some "stat"
    ∷ some "fstat"
    ∷ some "lstat"
    ∷ some "poll"
    ∷ some "lseek"
    ∷ some "mmap"
    ∷ some "mprotect"
    ∷ some "munmap"
    ∷ some "brk"
    ∷ some "rt_sigaction#64"
    ∷ some "rt_sigprocmask"
    ∷ some "rt_sigreturn#64"
    ∷ some "ioctl#64"
    ∷ some "pread"
    ∷ some "pwrite"
    ∷ some "readv#64"
    ∷ some "writev#64"
    ∷ some "access"
    ∷ some "pipe"
    ∷ some "select"
    ∷ some "sched_yield"
    ∷ some "mremap"
    ∷ some "msync"
    ∷ some "mincore"
    ∷ some "madvise"
    ∷ some "shmget"
    ∷ some "shmat"
    ∷ some "shmctl"
    ∷ some "dup"
    ∷ some "dup2"
    ∷ some "pause"
    ∷ some "nanosleep"
    ∷ some "getitimer"
    ∷ some "alarm"
    ∷ some "setitimer"
    ∷ some "getpid"
    ∷ some "sendfile"
    ∷ some "socket"
    ∷ some "connect"
    ∷ some "accept"
    ∷ some "sendto"
    ∷ some "recvfrom#64"
    ∷ some "sendmsg#64"
    ∷ some "recvmsg#64"
    ∷ some "shutdown"
    ∷ some "bind"
    ∷ some "listen"
    ∷ some "getsockname"
    ∷ some "getpeername"
    ∷ some "socketpair"
    ∷ some "setsockopt#64"
    ∷ some "getsockopt#64"
    ∷ some "clone"
    ∷ some "fork"
    ∷ some "vfork"
    ∷ some "execve#64"
    ∷ some "_exit"
    ∷ some "wait4"
    ∷ some "kill"
    ∷ some "uname"
    ∷ some "semget"
    ∷ some "semop"
    ∷ some "semctl"
    ∷ some "shmdt"
    ∷ some "msgget"
    ∷ some "msgsnd"
    ∷ some "msgrcv"
    ∷ some "msgctl"
    ∷ some "fcntl"
    ∷ some "flock"
    ∷ some "fsync"
    ∷ some "fdatasync"
    ∷ some "truncate"
    ∷ some "ftruncate"
    ∷ some "getdents"
    ∷ some "getcwd"
    ∷ some "chdir"
    ∷ some "fchdir"
    ∷ some "rename"
    ∷ some "mkdir"
    ∷ some "rmdir"
    ∷ some "creat"
    ∷ some "link"
    ∷ some "unlink"
    ∷ some "symlink"
    ∷ some "readlink"
    ∷ some "chmod"
    ∷ some "fchmod"
    ∷ some "chown"
    ∷ some "fchown"
    ∷ some "lchown"
    ∷ some "umask"
    ∷ some "gettimeofday"
    ∷ some "getrlimit"
    ∷ some "getrusage"
    ∷ some "sysinfo"
    ∷ some "times"
    ∷ some "ptrace#64"
    ∷ some "getuid"
    ∷ some "syslog"
    ∷ some "getgid"
    ∷ some "setuid"
    ∷ some "setgid"
    ∷ some "geteuid"
    ∷ some "getegid"
    ∷ some "setpgid"
    ∷ some "getppid"
    ∷ some "getpgrp"
    ∷ some "setsid"
    ∷ some "setreuid"
    ∷ some "setregid"
    ∷ some "getgroups"
    ∷ some "setgroups"
    ∷ some "setresuid"
    ∷ some "getresuid"
    ∷ some "setresgid"
    ∷ some "getresgid"
    ∷ some "getpgid"
    ∷ some "setfsuid"
    ∷ some "setfsgid"
    ∷ some "getsid"
    ∷ some "capget"
    ∷ some "capset"
    ∷ some "rt_sigpending#64"
    ∷ some "rt_sigtimedwait#64"
    ∷ some "rt_sigqueueinfo#64"
    ∷ some "rt_sigsuspend"
    ∷ some "sigaltstack#64"
    ∷ some "utime"
    ∷ some "mknod"
    ∷ some "uselib#64"
    ∷ some "personality"
    ∷ some "ustat"
    ∷ some "statfs"
    ∷ some "fstatfs"
    ∷ some "sysfs"
    ∷ some "getpriority"
    ∷ some "setpriority"
    ∷ some "sched_setparam"
    ∷ some "sched_getparam"
    ∷ some "sched_setscheduler"
    ∷ some "sched_getscheduler"
    ∷ some "sched_get_priority_max"
    ∷ some "sched_get_priority_min"
    ∷ []

unfoldable pub sysent_x32_middle : List (Option String)
sysent_x32_middle =
    some "sched_rr_get_interval"
    ∷ some "mlock"
    ∷ some "munlock"
    ∷ some "mlockall"
    ∷ some "munlockall"
    ∷ some "vhangup"
    ∷ some "modify_ldt"
    ∷ some "pivot_root"
    ∷ some "_sysctl#64"
    ∷ some "prctl"
    ∷ some "arch_prctl"
    ∷ some "adjtimex"
    ∷ some "setrlimit"
    ∷ some "chroot"
    ∷ some "sync"
    ∷ some "acct"
    ∷ some "settimeofday"
    ∷ some "mount"
    ∷ some "umount"
    ∷ some "swapon"
    ∷ some "swapoff"
    ∷ some "reboot"
    ∷ some "sethostname"
    ∷ some "setdomainname"
    ∷ some "iopl"
    ∷ some "ioperm"
    ∷ some "create_module#64"
    ∷ some "init_module"
    ∷ some "delete_module"
    ∷ some "get_kernel_syms#64"
    ∷ some "query_module#64"
    ∷ some "quotactl"
    ∷ some "nfsservctl#64"
    ∷ some "getpmsg"
    ∷ some "putpmsg"
    ∷ some "afs_syscall"
    ∷ some "tuxcall"
    ∷ some "security"
    ∷ some "gettid"
    ∷ some "readahead"
    ∷ some "setxattr"
    ∷ some "lsetxattr"
    ∷ some "fsetxattr"
    ∷ some "getxattr"
    ∷ some "lgetxattr"
    ∷ some "fgetxattr"
    ∷ some "listxattr"
    ∷ some "llistxattr"
    ∷ some "flistxattr"
    ∷ some "removexattr"
    ∷ some "lremovexattr"
    ∷ some "fremovexattr"
    ∷ some "tkill"
    ∷ some "time"
    ∷ some "futex"
    ∷ some "sched_setaffinity"
    ∷ some "sched_getaffinity"
    ∷ some "set_thread_area#64"
    ∷ some "io_setup#64"
    ∷ some "io_destroy"
    ∷ some "io_getevents"
    ∷ some "io_submit#64"
    ∷ some "io_cancel"
    ∷ some "get_thread_area#64"
    ∷ some "lookup_dcookie"
    ∷ some "epoll_create"
    ∷ some "epoll_ctl_old#64"
    ∷ some "epoll_wait_old#64"
    ∷ some "remap_file_pages"
    ∷ some "getdents64"
    ∷ some "set_tid_address"
    ∷ some "restart_syscall"
    ∷ some "semtimedop"
    ∷ some "fadvise64"
    ∷ some "timer_create#64"
    ∷ some "timer_settime"
    ∷ some "timer_gettime"
    ∷ some "timer_getoverrun"
    ∷ some "timer_delete"
    ∷ some "clock_settime"
    ∷ some "clock_gettime"
    ∷ some "clock_getres"
    ∷ some "clock_nanosleep"
    ∷ some "exit_group"
    ∷ some "epoll_wait"
    ∷ some "epoll_ctl"
    ∷ some "tgkill"
    ∷ some "utimes"
    ∷ some "vserver#64"
    ∷ some "mbind"
    ∷ some "set_mempolicy"
    ∷ some "get_mempolicy"
    ∷ some "mq_open"
    ∷ some "mq_unlink"
    ∷ some "mq_timedsend"
    ∷ some "mq_timedreceive"
    ∷ some "mq_notify#64mq_getsetattr"
    ∷ some "kexec_load#64"
    ∷ some "waitid#64"
    ∷ some "add_key"
    ∷ some "request_key"
    ∷ some "keyctl"
    ∷ some "ioprio_set"
    ∷ some "ioprio_get"
    ∷ some "inotify_init"
    ∷ some "inotify_add_watch"
    ∷ some "inotify_rm_watch"
    ∷ some "migrate_pages"
    ∷ some "openat"
    ∷ some "mkdirat"
    ∷ some "mknodat"
    ∷ some "fchownat"
    ∷ some "futimesat"
    ∷ some "newfstatat"
    ∷ some "unlinkat"
    ∷ some "renameat"
    ∷ some "linkat"
    ∷ some "symlinkat"
    ∷ some "readlinkat"
    ∷ some "fchmodat"
    ∷ some "faccessat"
    ∷ some "pselect6"
    ∷ some "ppoll"
    ∷ some "unshare"
    ∷ some "set_robust_list#64"
    ∷ some "get_robust_list#64"
    ∷ some "splice"
    ∷ some "tee"
    ∷ some "sync_file_range"
    ∷ some "vmsplice#64"
    ∷ some "move_pages#64"
    ∷ some "utimensat"
    ∷ some "epoll_pwait"
    ∷ some "signalfd"
    ∷ some "timerfd_create"
    ∷ some "eventfd"
    ∷ some "fallocate"
    ∷ some "timerfd_settime"
    ∷ some "timerfd_gettime"
    ∷ some "accept4"
    ∷ some "signalfd4"
    ∷ some "eventfd2"
    ∷ some "epoll_create1"
    ∷ some "dup3"
    ∷ some "pipe2"
    ∷ some "inotify_init1"
    ∷ some "preadv#64"
    ∷ []

unfoldable pub sysent_x32_reserved : List (Option String)
sysent_x32_reserved =
    some "pwritev#64"
    ∷ some "rt_tgsigqueueinfo#64"
    ∷ some "perf_event_open"
    ∷ some "recvmmsg#64"
    ∷ some "fanotify_init"
    ∷ some "fanotify_mark"
    ∷ some "prlimit64"
    ∷ some "name_to_handle_at"
    ∷ some "open_by_handle_at"
    ∷ some "clock_adjtime"
    ∷ some "syncfs"
    ∷ some "sendmmsg#64"
    ∷ some "setns"
    ∷ some "getcpu"
    ∷ some "process_vm_readv#64"
    ∷ some "process_vm_writev#64"
    ∷ some "kcmp"
    ∷ some "finit_module"
    ∷ some "sched_setattr"
    ∷ some "sched_getattr"
    ∷ some "renameat2"
    ∷ some "seccomp"
    ∷ some "getrandom"
    ∷ some "memfd_create"
    ∷ some "kexec_file_load"
    ∷ some "bpf"
    ∷ some "execveat#64"
    ∷ some "userfaultfd"
    ∷ some "membarrier"
    ∷ some "mlock2"
    ∷ some "copy_file_range"
    ∷ some "preadv2#64"
    ∷ some "pwritev2#64"
    ∷ some "pkey_mprotect"
    ∷ some "pkey_alloc"
    ∷ some "pkey_free"
    ∷ some "statx"
    ∷ some "io_pgetevents"
    ∷ some "rseq"
    ∷ none
    ∷ none
    ∷ none
    ∷ none
    ∷ none
    ∷ none
    ∷ none
    ∷ none
    ∷ none
    ∷ none
    ∷ none
    ∷ none
    ∷ none
    ∷ none
    ∷ none
    ∷ none
    ∷ none
    ∷ none
    ∷ none
    ∷ none
    ∷ none
    ∷ none
    ∷ none
    ∷ none
    ∷ none
    ∷ none
    ∷ none
    ∷ none
    ∷ none
    ∷ none
    ∷ none
    ∷ none
    ∷ none
    ∷ none
    ∷ none
    ∷ none
    ∷ none
    ∷ none
    ∷ none
    ∷ none
    ∷ none
    ∷ none
    ∷ none
    ∷ none
    ∷ none
    ∷ none
    ∷ none
    ∷ none
    ∷ none
    ∷ none
    ∷ none
    ∷ none
    ∷ none
    ∷ none
    ∷ none
    ∷ none
    ∷ none
    ∷ none
    ∷ none
    ∷ none
    ∷ none
    ∷ none
    ∷ none
    ∷ none
    ∷ none
    ∷ none
    ∷ none
    ∷ none
    ∷ none
    ∷ none
    ∷ none
    ∷ none
    ∷ none
    ∷ none
    ∷ none
    ∷ none
    ∷ none
    ∷ none
    ∷ none
    ∷ none
    ∷ none
    ∷ none
    ∷ none
    ∷ none
    ∷ none
    ∷ none
    ∷ none
    ∷ none
    ∷ none
    ∷ some "pidfd_send_signal"
    ∷ some "io_uring_setup"
    ∷ some "io_uring_enter"
    ∷ some "io_uring_register"
    ∷ some "open_tree"
    ∷ some "move_mount"
    ∷ some "fsopen"
    ∷ some "fsconfig"
    ∷ some "fsmount"
    ∷ some "fspick"
    ∷ some "pidfd_open"
    ∷ some "clone3"
    ∷ some "close_range"
    ∷ some "openat2"
    ∷ some "pidfd_getfd"
    ∷ some "faccessat2"
    ∷ some "process_madvise"
    ∷ some "epoll_pwait2"
    ∷ none
    ∷ []

unfoldable pub sysent_x32_high : List (Option String)
sysent_x32_high =
    none
    ∷ none
    ∷ none
    ∷ none
    ∷ none
    ∷ none
    ∷ none
    ∷ none
    ∷ none
    ∷ none
    ∷ none
    ∷ none
    ∷ none
    ∷ none
    ∷ none
    ∷ none
    ∷ none
    ∷ none
    ∷ none
    ∷ none
    ∷ none
    ∷ none
    ∷ none
    ∷ none
    ∷ none
    ∷ none
    ∷ none
    ∷ none
    ∷ none
    ∷ none
    ∷ none
    ∷ none
    ∷ none
    ∷ none
    ∷ none
    ∷ none
    ∷ none
    ∷ none
    ∷ none
    ∷ none
    ∷ none
    ∷ none
    ∷ none
    ∷ none
    ∷ none
    ∷ none
    ∷ none
    ∷ none
    ∷ none
    ∷ none
    ∷ none
    ∷ none
    ∷ none
    ∷ none
    ∷ none
    ∷ none
    ∷ none
    ∷ none
    ∷ none
    ∷ none
    ∷ none
    ∷ none
    ∷ none
    ∷ none
    ∷ none
    ∷ none
    ∷ none
    ∷ none
    ∷ none
    ∷ some "rt_sigaction"
    ∷ some "rt_sigreturn"
    ∷ some "ioctl"
    ∷ some "readv"
    ∷ some "writev"
    ∷ some "recvfrom"
    ∷ some "sendmsg"
    ∷ some "recvmsg"
    ∷ some "execve"
    ∷ some "ptrace"
    ∷ some "rt_sigpending"
    ∷ some "rt_sigtimedwait"
    ∷ some "rt_sigqueueinfo"
    ∷ some "sigaltstack"
    ∷ some "timer_create"
    ∷ some "mq_notify"
    ∷ some "kexec_load"
    ∷ some "waitid"
    ∷ some "set_robust_list"
    ∷ some "get_robust_list"
    ∷ some "vmsplice"
    ∷ some "move_pages"
    ∷ some "preadv"
    ∷ some "pwritev"
    ∷ some "rt_tgsigqueueinfo"
    ∷ some "recvmmsg"
    ∷ some "sendmmsg"
    ∷ some "process_vm_readv"
    ∷ some "process_vm_writev"
    ∷ some "setsockopt"
    ∷ some "getsockopt"
    ∷ some "io_setup"
    ∷ some "io_submit"
    ∷ some "execveat"
    ∷ some "preadv2"
    ∷ some "pwritev2"
    ∷ []

unfoldable pub sysent_x32 : List (Option String)
unfolding sysent_x32_low sysent_x32_middle sysent_x32_reserved sysent_x32_high
sysent_x32 = sysent_x32_low ++ (sysent_x32_middle ++ (sysent_x32_reserved ++ (sysent_x32_high)))
