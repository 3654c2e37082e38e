-- ===== src/Name/Tables/Ia64.antt =====
-- pinktrace/linux/ia64/syscallent.h: the system calls of ia64, from number 1024 on.
use Prim.Native.String.{String}
use pinktrace.Prelude.{List, [], ◌∷◌, ◌++◌, Option, none, some}

unfoldable pub sysent_ia64_low : List (Option String)
sysent_ia64_low =
    some "ni_syscall"
    ∷ some "exit"
    ∷ some "read"
    ∷ some "write"
    ∷ some "open"
    ∷ some "close"
    ∷ some "creat"
    ∷ some "link"
    ∷ some "unlink"
    ∷ some "execve"
    ∷ some "chdir"
    ∷ some "fchdir"
    ∷ some "utimes"
    ∷ some "mknod"
    ∷ some "chmod"
    ∷ some "chown"
    ∷ some "lseek"
    ∷ some "getpid"
    ∷ some "getppid"
    ∷ some "mount"
    ∷ some "umount"
    ∷ some "setuid"
    ∷ some "getuid"
    ∷ some "geteuid"
    ∷ some "ptrace"
    ∷ some "access"
    ∷ some "sync"
    ∷ some "fsync"
    ∷ some "fdatasync"
    ∷ some "kill"
    ∷ some "rename"
    ∷ some "mkdir"
    ∷ some "rmdir"
    ∷ some "dup"
    ∷ some "pipe"
    ∷ some "times"
    ∷ some "brk"
    ∷ some "setgid"
    ∷ some "getgid"
    ∷ some "getegid"
    ∷ some "acct"
    ∷ some "ioctl"
    ∷ some "fcntl"
    ∷ some "umask"
    ∷ some "chroot"
    ∷ some "ustat"
    ∷ some "dup2"
    ∷ some "setreuid"
    ∷ some "setregid"
    ∷ some "getresuid"
    ∷ some "setresuid"
    ∷ some "getresgid"
    ∷ some "setresgid"
    ∷ some "getgroups"
    ∷ some "setgroups"
    ∷ some "getpgid"
    ∷ some "setpgid"
    ∷ some "setsid"
    ∷ some "getsid"
    ∷ some "sethostname"
    ∷ some "setrlimit"
    ∷ some "getrlimit"
    ∷ some "getrusage"
    ∷ some "gettimeofday"
    ∷ some "settimeofday"
    ∷ some "select"
    ∷ some "poll"
    ∷ some "symlink"
    ∷ some "readlink"
    ∷ some "uselib"
    ∷ some "swapon"
    ∷ some "swapoff"
    ∷ some "reboot"
    ∷ some "truncate"
    ∷ some "ftruncate"
    ∷ some "fchmod"
    ∷ some "fchown"
    ∷ some "getpriority"
    ∷ some "setpriority"
    ∷ some "statfs"
    ∷ some "fstatfs"
    ∷ some "gettid"
    ∷ some "semget"
    ∷ some "semop"
    ∷ some "semctl"
    ∷ some "msgget"
    ∷ some "msgsnd"
    ∷ some "msgrcv"
    ∷ some "msgctl"
    ∷ some "shmget"
    ∷ some "shmat"
    ∷ some "shmdt"
    ∷ some "shmctl"
    ∷ some "syslog"
    ∷ some "setitimer"
    ∷ some "getitimer"
    ∷ some "stat"
    ∷ some "lstat"
    ∷ some "fstat"
    ∷ some "vhangup"
    ∷ some "lchown"
    ∷ some "vm86"
    ∷ some "wait4"
    ∷ some "sysinfo"
    ∷ some "clone"
    ∷ some "setdomainname"
    ∷ some "uname"
    ∷ some "adjtimex"
    ∷ some "create_module"
    ∷ some "init_module"
    ∷ some "delete_module"
    ∷ some "get_kernel_syms"
    ∷ some "query_module"
    ∷ some "quotactl"
    ∷ some "bdflush"
    ∷ some "sysfs"
    ∷ some "personality"
    ∷ some "afs_syscall"
    ∷ some "setfsuid"
    ∷ some "setfsgid"
    ∷ some "getdents"
    ∷ some "flock"
    ∷ some "readv"
    ∷ some "writev"
    ∷ some "pread"
    ∷ some "pwrite"
    ∷ some "_sysctl"
    ∷ some "mmap"
    ∷ some "munmap"
    ∷ some "mlock"
    ∷ some "mlockall"
    ∷ some "mprotect"
    ∷ some "mremap"
    ∷ some "msync"
    ∷ some "munlock"
    ∷ some "munlockall"
    ∷ some "sched_getparam"
    ∷ some "sched_setparam"
    ∷ some "sched_getscheduler"
    ∷ some "sched_setscheduler"
    ∷ some "sched_yield"
    ∷ some "sched_get_priority_max"
    ∷ some "sched_get_priority_min"
    ∷ some "sched_rr_get_interval"
    ∷ some "nanosleep"
    ∷ some "nfsservctl"
    ∷ some "prctl"
    ∷ []

unfoldable pub sysent_ia64_middle : List (Option String)
sysent_ia64_middle =
    some "getpagesize"
    ∷ some "mmap2"
    ∷ some "pciconfig_read"
    ∷ some "pciconfig_write"
    ∷ some "perfmonctl"
    ∷ some "sigaltstack"
    ∷ some "rt_sigaction"
    ∷ some "rt_sigpending"
    ∷ some "rt_sigprocmask"
    ∷ some "rt_sigqueueinfo"
    ∷ some "rt_sigreturn"
    ∷ some "rt_sigsuspend"
    ∷ some "rt_sigtimedwait"
    ∷ some "getcwd"
    ∷ some "capget"
    ∷ some "capset"
    ∷ some "sendfile"
    ∷ some "getpmsg"
    ∷ some "putpmsg"
    ∷ some "socket"
    ∷ some "bind"
    ∷ some "connect"
    ∷ some "listen"
    ∷ some "accept"
    ∷ some "getsockname"
    ∷ some "getpeername"
    ∷ some "socketpair"
    ∷ some "send"
    ∷ some "sendto"
    ∷ some "recv"
    ∷ some "recvfrom"
    ∷ some "shutdown"
    ∷ some "setsockopt"
    ∷ some "getsockopt"
    ∷ some "sendmsg"
    ∷ some "recvmsg"
    ∷ some "pivot_root"
    ∷ some "mincore"
    ∷ some "madvise"
    ∷ some "stat"
    ∷ some "lstat"
    ∷ some "fstat"
    ∷ some "clone2"
    ∷ some "getdents64"
    ∷ some "getunwind"
    ∷ some "readahead"
    ∷ some "setxattr"
    ∷ some "lsetxattr"
    ∷ some "fsetxattr"
    ∷ some "getxattr"
    ∷ some "lgetxattr"
    ∷ some "fgetxattr"
    ∷ some "listxattr"
    ∷ some "llistxattr"
    ∷ some "flistxattr"
    ∷ some "removexattr"
    ∷ some "lremovexattr"
    ∷ some "fremovexattr"
    ∷ some "tkill"
    ∷ some "futex"
    ∷ some "sched_setaffinity"
    ∷ some "sched_getaffinity"
    ∷ some "set_tid_address"
    ∷ some "fadvise64"
    ∷ some "tgkill"
    ∷ some "exit_group"
    ∷ some "lookup_dcookie"
    ∷ some "io_setup"
    ∷ some "io_destroy"
    ∷ some "io_getevents"
    ∷ some "io_submit"
    ∷ some "io_cancel"
    ∷ some "epoll_create"
    ∷ some "epoll_ctl"
    ∷ some "epoll_wait"
    ∷ some "restart_syscall"
    ∷ some "semtimedop"
    ∷ some "timer_create"
    ∷ some "timer_settime"
    ∷ some "timer_gettime"
    ∷ some "timer_getoverrun"
    ∷ some "timer_delete"
    ∷ some "clock_settime"
    ∷ some "clock_gettime"
    ∷ some "clock_getres"
    ∷ some "clock_nanosleep"
    ∷ some "fstatfs64"
    ∷ some "statfs64"
    ∷ some "mbind"
    ∷ some "get_mempolicy"
    ∷ some "set_mempolicy"
    ∷ some "mq_open"
    ∷ some "mq_unlink"
    ∷ some "mq_timedsend"
    ∷ some "mq_timedreceive"
    ∷ some "mq_notify"
    ∷ some "mq_getsetattr"
    ∷ some "kexec_load"
    ∷ some "vserver"
    ∷ some "waitid"
    ∷ some "add_key"
    ∷ some "request_key"
    ∷ some "keyctl"
    ∷ some "ioprio_set"
    ∷ some "ioprio_get"
    ∷ some "move_pages"
    ∷ some "inotify_init"
    ∷ some "inotify_add_watch"
    ∷ some "inotify_rm_watch"
    ∷ some "migrate_pages"
    ∷ some "openat"
    ∷ some "mkdirat"
    ∷ some "mknodat"
    ∷ some "fchownat"
    ∷ some "futimesat"
    ∷ some "newfstatat"
    ∷ some "unlinkat"
    ∷ some "renameat"
    ∷ some "linkat"
    ∷ some "symlinkat"
    ∷ some "readlinkat"
    ∷ some "fchmodat"
    ∷ some "faccessat"
    ∷ some "pselect6"
    ∷ some "ppoll"
    ∷ some "unshare"
    ∷ some "set_robust_list"
    ∷ some "get_robust_list"
    ∷ some "splice"
    ∷ some "sync_file_range"
    ∷ some "tee"
    ∷ some "vmsplice"
    ∷ none
    ∷ some "getcpu"
    ∷ some "epoll_pwait"
    ∷ none
    ∷ some "signalfd"
    ∷ some "timerfd"
    ∷ some "eventfd"
    ∷ some "preadv"
    ∷ some "pwritev"
    ∷ some "rt_tgsigqueueinfo"
    ∷ some "recvmmsg"
    ∷ some "fanotify_init"
    ∷ some "fanotify_mark"
    ∷ some "prlimit64"
    ∷ some "name_to_handle_at"
    ∷ some "open_by_handle_at"
    ∷ []

unfoldable pub sysent_ia64_high : List (Option String)
sysent_ia64_high =
    some "clock_adjtime"
    ∷ some "syncfs"
    ∷ some "setns"
    ∷ some "sendmmsg"
    ∷ some "process_vm_readv"
    ∷ some "process_vm_writev"
    ∷ some "accept4"
    ∷ some "finit_module"
    ∷ []

unfoldable pub sysent_ia64 : List (Option String)
unfolding sysent_ia64_low sysent_ia64_middle sysent_ia64_high
sysent_ia64 = sysent_ia64_low ++ (sysent_ia64_middle ++ (sysent_ia64_high))
