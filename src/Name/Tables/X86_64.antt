-- ===== src/Name/Tables/X86_64.antt =====
-- pinktrace/linux/x86_64/syscallent.h: the system calls of the x86-64 ABI, by number.
use Prim.Native.String.{String}
use pinktrace.Prelude.{List, [], ◌∷◌, ◌++◌, Option, none, some}

unfoldable pub sysent_x86_64_low : List (Option String)
sysent_x86_64_low =
    some "read"
    ∷ some "write"
    ∷ some "open"
    ∷ some "close"
    ∷ some "stat"
    ∷ some "fstat"
    ∷ some "lstat"
    ∷ some "poll"
    ∷ some "lseek"
    ∷ some "mmap"
    ∷ some "mprotect"
    ∷ some "munmap"
    ∷ some "brk"
    ∷ some "rt_sigaction"
    ∷ some "rt_sigprocmask"
    ∷ some "rt_sigreturn"
    ∷ some "ioctl"
    ∷ some "pread"
    ∷ some "pwrite"
    ∷ some "readv"
    ∷ some "writev"
    ∷ some "access"
    ∷ some "pipe"
    ∷ some "select"
    ∷ some "sched_yield"
    ∷ some "mremap"
    ∷ some "msync"
    ∷ some "mincore"
    ∷ some "madvise"
    ∷ some "shmget"
    ∷ some "shmat"
    ∷ some "shmctl"
    ∷ some "dup"
    ∷ some "dup2"
    ∷ some "pause"
    ∷ some "nanosleep"
    ∷ some "getitimer"
    ∷ some "alarm"
    ∷ some "setitimer"
    ∷ some "getpid"
    ∷ some "sendfile"
    ∷ some "socket"
    ∷ some "connect"
    ∷ some "accept"
    ∷ some "sendto"
    ∷ some "recvfrom"
    ∷ some "sendmsg"
    ∷ some "recvmsg"
    ∷ some "shutdown"
    ∷ some "bind"
    ∷ some "listen"
    ∷ some "getsockname"
    ∷ some "getpeername"
    ∷ some "socketpair"
    ∷ some "setsockopt"
    ∷ some "getsockopt"
    ∷ some "clone"
    ∷ some "fork"
    ∷ some "vfork"
    ∷ some "execve"
    ∷ some "_exit"
    ∷ some "wait4"
    ∷ some "kill"
    ∷ some "uname"
    ∷ some "semget"
    ∷ some "semop"
    ∷ some "semctl"
    ∷ some "shmdt"
    ∷ some "msgget"
    ∷ some "msgsnd"
    ∷ some "msgrcv"
    ∷ some "msgctl"
    ∷ some "fcntl"
    ∷ some "flock"
    ∷ some "fsync"
    ∷ some "fdatasync"
    ∷ some "truncate"
    ∷ some "ftruncate"
    ∷ some "getdents"
    ∷ some "getcwd"
    ∷ some "chdir"
    ∷ some "fchdir"
    ∷ some "rename"
    ∷ some "mkdir"
    ∷ some "rmdir"
    ∷ some "creat"
    ∷ some "link"
    ∷ some "unlink"
    ∷ some "symlink"
    ∷ some "readlink"
    ∷ some "chmod"
    ∷ some "fchmod"
    ∷ some "chown"
    ∷ some "fchown"
    ∷ some "lchown"
    ∷ some "umask"
    ∷ some "gettimeofday"
    ∷ some "getrlimit"
    ∷ some "getrusage"
    ∷ some "sysinfo"
    ∷ some "times"
    ∷ some "ptrace"
    ∷ some "getuid"
    ∷ some "syslog"
    ∷ some "getgid"
    ∷ some "setuid"
    ∷ some "setgid"
    ∷ some "geteuid"
    ∷ some "getegid"
    ∷ some "setpgid"
    ∷ some "getppid"
    ∷ some "getpgrp"
    ∷ some "setsid"
    ∷ some "setreuid"
    ∷ some "setregid"
    ∷ some "getgroups"
    ∷ some "setgroups"
    ∷ some "setresuid"
    ∷ some "getresuid"
    ∷ some "setresgid"
    ∷ some "getresgid"
    ∷ some "getpgid"
    ∷ some "setfsuid"
    ∷ some "setfsgid"
    ∷ some "getsid"
    ∷ some "capget"
    ∷ some "capset"
    ∷ some "rt_sigpending"
    ∷ some "rt_sigtimedwait"
    ∷ some "rt_sigqueueinfo"
    ∷ some "rt_sigsuspend"
    ∷ some "sigaltstack"
    ∷ some "utime"
    ∷ some "mknod"
    ∷ some "uselib"
    ∷ some "personality"
    ∷ some "ustat"
    ∷ some "statfs"
    ∷ some "fstatfs"
    ∷ some "sysfs"
    ∷ some "getpriority"
    ∷ some "setpriority"
    ∷ some "sched_setparam"
    ∷ some "sched_getparam"
    ∷ some "sched_setscheduler"
    ∷ some "sched_getscheduler"
    ∷ some "sched_get_priority_max"
    ∷ some "sched_get_priority_min"
    ∷ []

unfoldable pub sysent_x86_64_middle : List (Option String)
sysent_x86_64_middle =
    some "sched_rr_get_interval"
    ∷ some "mlock"
    ∷ some "munlock"
    ∷ some "mlockall"
    ∷ some "munlockall"
    ∷ some "vhangup"
    ∷ some "modify_ldt"
    ∷ some "pivot_root"
    ∷ some "_sysctl"
    ∷ some "prctl"
    ∷ some "arch_prctl"
    ∷ some "adjtimex"
    ∷ some "setrlimit"
    ∷ some "chroot"
    ∷ some "sync"
    ∷ some "acct"
    ∷ some "settimeofday"
    ∷ some "mount"
    ∷ some "umount"
    ∷ some "swapon"
    ∷ some "swapoff"
    ∷ some "reboot"
    ∷ some "sethostname"
    ∷ some "setdomainname"
    ∷ some "iopl"
    ∷ some "ioperm"
    ∷ some "create_module"
    ∷ some "init_module"
    ∷ some "delete_module"
    ∷ some "get_kernel_syms"
    ∷ some "query_module"
    ∷ some "quotactl"
    ∷ some "nfsservctl"
    ∷ some "getpmsg"
    ∷ some "putpmsg"
    ∷ some "afs_syscall"
    ∷ some "tuxcall"
    ∷ some "security"
    ∷ some "gettid"
    ∷ some "readahead"
    ∷ some "setxattr"
    ∷ some "lsetxattr"
    ∷ some "fsetxattr"
    ∷ some "getxattr"
    ∷ some "lgetxattr"
    ∷ some "fgetxattr"
    ∷ some "listxattr"
    ∷ some "llistxattr"
    ∷ some "flistxattr"
    ∷ some "removexattr"
    ∷ some "lremovexattr"
    ∷ some "fremovexattr"
    ∷ some "tkill"
    ∷ some "time"
    ∷ some "futex"
    ∷ some "sched_setaffinity"
    ∷ some "sched_getaffinity"
    ∷ some "set_thread_area"
    ∷ some "io_setup"
    ∷ some "io_destroy"
    ∷ some "io_getevents"
    ∷ some "io_submit"
    ∷ some "io_cancel"
    ∷ some "get_thread_area"
    ∷ some "lookup_dcookie"
    ∷ some "epoll_create"
    ∷ some "epoll_ctl_old"
    ∷ some "epoll_wait_old"
    ∷ some "remap_file_pages"
    ∷ some "getdents64"
    ∷ some "set_tid_address"
    ∷ some "restart_syscall"
    ∷ some "semtimedop"
    ∷ some "fadvise64"
    ∷ some "timer_create"
    ∷ some "timer_settime"
    ∷ some "timer_gettime"
    ∷ some "timer_getoverrun"
    ∷ some "timer_delete"
    ∷ some "clock_settime"
    ∷ some "clock_gettime"
    ∷ some "clock_getres"
    ∷ some "clock_nanosleep"
    ∷ some "exit_group"
    ∷ some "epoll_wait"
    ∷ some "epoll_ctl"
    ∷ some "tgkill"
    ∷ some "utimes"
    ∷ some "vserver"
    ∷ some "mbind"
    ∷ some "set_mempolicy"
    ∷ some "get_mempolicy"
    ∷ some "mq_open"
    ∷ some "mq_unlink"
    ∷ some "mq_timedsend"
    ∷ some "mq_timedreceive"
    ∷ some "mq_notify"
    ∷ some "mq_getsetattr"
    ∷ some "kexec_load"
    ∷ some "waitid"
    ∷ some "add_key"
    ∷ some "request_key"
    ∷ some "keyctl"
    ∷ some "ioprio_set"
    ∷ some "ioprio_get"
    ∷ some "inotify_init"
    ∷ some "inotify_add_watch"
    ∷ some "inotify_rm_watch"
    ∷ some "migrate_pages"
    ∷ some "openat"
    ∷ some "mkdirat"
    ∷ some "mknodat"
    ∷ some "fchownat"
    ∷ some "futimesat"
    ∷ some "newfstatat"
    ∷ some "unlinkat"
    ∷ some "renameat"
    ∷ some "linkat"
    ∷ some "symlinkat"
    ∷ some "readlinkat"
    ∷ some "fchmodat"
    ∷ some "faccessat"
    ∷ some "pselect6"
    ∷ some "ppoll"
    ∷ some "unshare"
    ∷ some "set_robust_list"
    ∷ some "get_robust_list"
    ∷ some "splice"
    ∷ some "tee"
    ∷ some "sync_file_range"
    ∷ some "vmsplice"
    ∷ some "move_pages"
    ∷ some "utimensat"
    ∷ some "epoll_pwait"
    ∷ some "signalfd"
    ∷ some "timerfd_create"
    ∷ some "eventfd"
    ∷ some "fallocate"
    ∷ some "timerfd_settime"
    ∷ some "timerfd_gettime"
    ∷ some "accept4"
    ∷ some "signalfd4"
    ∷ some "eventfd2"
    ∷ some "epoll_create1"
    ∷ some "dup3"
    ∷ some "pipe2"
    ∷ some "inotify_init1"
    ∷ some "preadv"
    ∷ []

unfoldable pub sysent_x86_64_high : List (Option String)
sysent_x86_64_high =
    some "pwritev"
    ∷ some "rt_tgsigqueueinfo"
    ∷ some "perf_event_open"
    ∷ some "recvmmsg"
    ∷ some "fanotify_init"
    ∷ some "fanotify_mark"
    ∷ some "prlimit64"
    ∷ some "name_to_handle_at"
    ∷ some "open_by_handle_at"
    ∷ some "clock_adjtime"
    ∷ some "syncfs"
    ∷ some "sendmmsg"
    ∷ some "setns"
    ∷ some "getcpu"
    ∷ some "process_vm_readv"
    ∷ some "process_vm_writev"
    ∷ some "kcmp"
    ∷ some "finit_module"
    ∷ some "sched_setattr"
    ∷ some "sched_getattr"
    ∷ some "renameat2"
    ∷ some "seccomp"
    ∷ some "getrandom"
    ∷ some "memfd_create"
    ∷ some "kexec_file_load"
    ∷ some "bpf"
    ∷ some "execveat"
    ∷ some "userfaultfd"
    ∷ some "membarrier"
    ∷ some "mlock2"
    ∷ some "copy_file_range"
    ∷ some "preadv2"
    ∷ some "pwritev2"
    ∷ some "pkey_mprotect"
    ∷ some "pkey_alloc"
    ∷ some "pkey_free"
    ∷ some "statx"
    ∷ some "io_pgetevents"
    ∷ some "rseq"
    ∷ none
    ∷ none
    ∷ none
    ∷ none
    ∷ none
    ∷ none
    ∷ none
    ∷ none
    ∷ none
    ∷ none
    ∷ none
    ∷ none
    ∷ none
    ∷ none
    ∷ none
    ∷ none
    ∷ none
    ∷ none
    ∷ none
    ∷ none
    ∷ none
    ∷ none
    ∷ none
    ∷ none
    ∷ none
    ∷ none
    ∷ none
    ∷ none
    ∷ none
    ∷ none
    ∷ none
    ∷ none
    ∷ none
    ∷ none
    ∷ none
    ∷ none
    ∷ none
    ∷ none
    ∷ none
    ∷ none
    ∷ none
    ∷ none
    ∷ none
    ∷ none
    ∷ none
    ∷ none
    ∷ none
    ∷ none
    ∷ none
    ∷ none
    ∷ none
    ∷ none
    ∷ none
    ∷ none
    ∷ none
    ∷ none
    ∷ none
    ∷ none
    ∷ none
    ∷ none
    ∷ none
    ∷ none
    ∷ none
    ∷ none
    ∷ none
    ∷ none
    ∷ none
    ∷ none
    ∷ none
    ∷ none
    ∷ none
    ∷ none
    ∷ none
    ∷ none
    ∷ none
    ∷ none
    ∷ none
    ∷ none
    ∷ none
    ∷ none
    ∷ none
    ∷ none
    ∷ none
    ∷ none
    ∷ none
    ∷ none
    ∷ none
    ∷ none
    ∷ none
    ∷ some "pidfd_send_signal"
    ∷ some "io_uring_setup"
    ∷ some "io_uring_enter"
    ∷ some "io_uring_register"
    ∷ some "open_tree"
    ∷ some "move_mount"
    ∷ some "fsopen"
    ∷ some "fsconfig"
    ∷ some "fsmount"
    ∷ some "fspick"
    ∷ some "pidfd_open"
    ∷ some "clone3"
    ∷ some "close_range"
    ∷ some "openat2"
    ∷ some "pidfd_getfd"
    ∷ some "faccessat2"
    ∷ some "process_madvise"
    ∷ some "epoll_pwait2"
    ∷ []

unfoldable pub sysent_x86_64 : List (Option String)
unfolding sysent_x86_64_low sysent_x86_64_middle sysent_x86_64_high
sysent_x86_64 = sysent_x86_64_low ++ (sysent_x86_64_middle ++ (sysent_x86_64_high))
