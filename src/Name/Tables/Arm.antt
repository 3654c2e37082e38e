-- ===== src/Name/Tables/Arm.antt =====
-- pinktrace/linux/arm/syscallent.h: the system calls of the ARM ABI, by their shuffled number.
use Prim.Native.String.{String}
use pinktrace.Prelude.{List, [], ◌∷◌, ◌++◌, Option, none, some}

unfoldable pub sysent_arm_low : List (Option String)
sysent_arm_low =
    some "restart_syscall"
    ∷ some "exit"
    ∷ some "fork"
    ∷ some "read"
    ∷ some "write"
    ∷ some "open"
    ∷ some "close"
    ∷ some "waitpid"
    ∷ some "creat"
    ∷ some "link"
    ∷ some "unlink"
    ∷ some "execve"
    ∷ some "chdir"
    ∷ some "time"
    ∷ some "mknod"
    ∷ some "chmod"
    ∷ some "lchown"
    ∷ some "break"
    ∷ some "oldstat"
    ∷ some "lseek"
    ∷ some "getpid"
    ∷ some "mount"
    ∷ some "oldumount"
    ∷ some "setuid"
    ∷ some "getuid"
    ∷ some "stime"
    ∷ some "ptrace"
    ∷ some "alarm"
    ∷ some "oldfstat"
    ∷ some "pause"
    ∷ some "utime"
    ∷ some "stty"
    ∷ some "gtty"
    ∷ some "access"
    ∷ some "nice"
    ∷ some "ftime"
    ∷ some "sync"
    ∷ some "kill"
    ∷ some "rename"
    ∷ some "mkdir"
    ∷ some "rmdir"
    ∷ some "dup"
    ∷ some "pipe"
    ∷ some "times"
    ∷ some "prof"
    ∷ some "brk"
    ∷ some "setgid"
    ∷ some "getgid"
    ∷ some "signal"
    ∷ some "geteuid"
    ∷ some "getegid"
    ∷ some "acct"
    ∷ some "umount"
    ∷ some "lock"
    ∷ some "ioctl"
    ∷ some "fcntl"
    ∷ some "mpx"
    ∷ some "setpgid"
    ∷ some "ulimit"
    ∷ some "oldolduname"
    ∷ some "umask"
    ∷ some "chroot"
    ∷ some "ustat"
    ∷ some "dup2"
    ∷ some "getppid"
    ∷ some "getpgrp"
    ∷ some "setsid"
    ∷ some "sigaction"
    ∷ some "siggetmask"
    ∷ some "sigsetmask"
    ∷ some "setreuid"
    ∷ some "setregid"
    ∷ some "sigsuspend"
    ∷ some "sigpending"
    ∷ some "sethostname"
    ∷ some "setrlimit"
    ∷ some "old_getrlimit"
    ∷ some "getrusage"
    ∷ some "gettimeofday"
    ∷ some "settimeofday"
    ∷ some "getgroups"
    ∷ some "setgroups"
    ∷ some "oldselect"
    ∷ some "symlink"
    ∷ some "oldlstat"
    ∷ some "readlink"
    ∷ some "uselib"
    ∷ some "swapon"
    ∷ some "reboot"
    ∷ some "readdir"
    ∷ some "old_mmap"
    ∷ some "munmap"
    ∷ some "truncate"
    ∷ some "ftruncate"
    ∷ some "fchmod"
    ∷ some "fchown"
    ∷ some "getpriority"
    ∷ some "setpriority"
    ∷ some "profil"
    ∷ some "statfs"
    ∷ some "fstatfs"
    ∷ some "ioperm"
    ∷ some "socketcall"
    ∷ some "syslog"
    ∷ some "setitimer"
    ∷ some "getitimer"
    ∷ some "stat"
    ∷ some "lstat"
    ∷ some "fstat"
    ∷ some "olduname"
    ∷ some "iopl"
    ∷ some "vhangup"
    ∷ some "idle"
    ∷ some "syscall"
    ∷ some "wait4"
    ∷ some "swapoff"
    ∷ some "sysinfo"
    ∷ some "ipc"
    ∷ some "fsync"
    ∷ some "sigreturn"
    ∷ some "clone"
    ∷ some "setdomainname"
    ∷ some "uname"
    ∷ some "modify_ldt"
    ∷ some "adjtimex"
    ∷ some "mprotect"
    ∷ some "sigprocmask"
    ∷ some "create_module"
    ∷ some "init_module"
    ∷ some "delete_module"
    ∷ some "get_kernel_syms"
    ∷ some "quotactl"
    ∷ some "getpgid"
    ∷ some "fchdir"
    ∷ some "bdflush"
    ∷ some "sysfs"
    ∷ some "personality"
    ∷ some "afs_syscall"
    ∷ some "setfsuid"
    ∷ some "setfsgid"
    ∷ some "_llseek"
    ∷ some "getdents"
    ∷ some "select"
    ∷ some "flock"
    ∷ some "msync"
    ∷ some "readv"
    ∷ some "writev"
    ∷ some "getsid"
    ∷ []

unfoldable pub sysent_arm_middle : List (Option String)
sysent_arm_middle =
    some "fdatasync"
    ∷ some "_sysctl"
    ∷ some "mlock"
    ∷ some "munlock"
    ∷ some "mlockall"
    ∷ some "munlockall"
    ∷ some "sched_setparam"
    ∷ some "sched_getparam"
    ∷ some "sched_setscheduler"
    ∷ some "sched_getscheduler"
    ∷ some "sched_yield"
    ∷ some "sched_get_priority_max"
    ∷ some "sched_get_priority_min"
    ∷ some "sched_rr_get_interval"
    ∷ some "nanosleep"
    ∷ some "mremap"
    ∷ some "setresuid"
    ∷ some "getresuid"
    ∷ some "vm86"
    ∷ some "query_module"
    ∷ some "poll"
    ∷ some "nfsservctl"
    ∷ some "setresgid"
    ∷ some "getresgid"
    ∷ some "prctl"
    ∷ some "rt_sigreturn"
    ∷ some "rt_sigaction"
    ∷ some "rt_sigprocmask"
    ∷ some "rt_sigpending"
    ∷ some "rt_sigtimedwait"
    ∷ some "rt_sigqueueinfo"
    ∷ some "rt_sigsuspend"
    ∷ some "pread"
    ∷ some "pwrite"
    ∷ some "chown"
    ∷ some "getcwd"
    ∷ some "capget"
    ∷ some "capset"
    ∷ some "sigaltstack"
    ∷ some "sendfile"
    ∷ some "getpmsg"
    ∷ some "putpmsg"
    ∷ some "vfork"
    ∷ some "getrlimit"
    ∷ some "mmap2"
    ∷ some "truncate64"
    ∷ some "ftruncate64"
    ∷ some "stat64"
    ∷ some "lstat64"
    ∷ some "fstat64"
    ∷ some "lchown32"
    ∷ some "getuid32"
    ∷ some "getgid32"
    ∷ some "geteuid32"
    ∷ some "getegid32"
    ∷ some "setreuid32"
    ∷ some "setregid32"
    ∷ some "getgroups32"
    ∷ some "setgroups32"
    ∷ some "fchown32"
    ∷ some "setresuid32"
    ∷ some "getresuid32"
    ∷ some "setresgid32"
    ∷ some "getresgid32"
    ∷ some "chown32"
    ∷ some "setuid32"
    ∷ some "setgid32"
    ∷ some "setfsuid32"
    ∷ some "setfsgid32"
    ∷ some "getdents64"
    ∷ some "pivot_root"
    ∷ some "mincore"
    ∷ some "madvise"
    ∷ some "fcntl64"
    ∷ some "SYS_222"
    ∷ some "SYS_223"
    ∷ some "gettid"
    ∷ some "readahead"
    ∷ some "setxattr"
    ∷ some "lsetxattr"
    ∷ some "fsetxattr"
    ∷ some "getxattr"
    ∷ some "lgetxattr"
    ∷ some "fgetxattr"
    ∷ some "listxattr"
    ∷ some "llistxattr"
    ∷ some "flistxattr"
    ∷ some "removexattr"
    ∷ some "lremovexattr"
    ∷ some "fremovexattr"
    ∷ some "tkill"
    ∷ some "sendfile64"
    ∷ some "futex"
    ∷ some "sched_setaffinity"
    ∷ some "sched_getaffinity"
    ∷ some "io_setup"
    ∷ some "io_destroy"
    ∷ some "io_getevents"
    ∷ some "io_submit"
    ∷ some "io_cancel"
    ∷ some "exit_group"
    ∷ some "lookup_dcookie"
    ∷ some "epoll_create"
    ∷ some "epoll_ctl"
    ∷ some "epoll_wait"
    ∷ some "remap_file_pages"
    ∷ some "SYS_254"
    ∷ some "SYS_255"
    ∷ some "set_tid_address"
    ∷ some "timer_create"
    ∷ some "timer_settime"
    ∷ some "timer_gettime"
    ∷ some "timer_getoverrun"
    ∷ some "timer_delete"
    ∷ some "clock_settime"
    ∷ some "clock_gettime"
    ∷ some "clock_getres"
    ∷ some "clock_nanosleep"
    ∷ some "statfs64"
    ∷ some "fstatfs64"
    ∷ some "tgkill"
    ∷ some "utimes"
    ∷ some "fadvise64_64"
    ∷ some "pciconfig_iobase"
    ∷ some "pciconfig_read"
    ∷ some "pciconfig_write"
    ∷ some "mq_open"
    ∷ some "mq_unlink"
    ∷ some "mq_timedsend"
    ∷ some "mq_timedreceive"
    ∷ some "mq_notify"
    ∷ some "mq_getsetattr"
    ∷ some "waitid"
    ∷ some "socket"
    ∷ some "bind"
    ∷ some "connect"
    ∷ some "listen"
    ∷ some "accept"
    ∷ some "getsockname"
    ∷ some "getpeername"
    ∷ some "socketpair"
    ∷ some "send"
    ∷ some "sendto"
    ∷ some "recv"
    ∷ some "recvfrom"
    ∷ some "shutdown"
    ∷ some "setsockopt"
    ∷ some "getsockopt"
    ∷ []

unfoldable pub sysent_arm_high : List (Option String)
sysent_arm_high =
    some "sendmsg"
    ∷ some "recvmsg"
    ∷ some "semop"
    ∷ some "semget"
    ∷ some "semctl"
    ∷ some "msgsnd"
    ∷ some "msgrcv"
    ∷ some "msgget"
    ∷ some "msgctl"
    ∷ some "shmat"
    ∷ some "shmdt"
    ∷ some "shmget"
    ∷ some "shmctl"
    ∷ some "add_key"
    ∷ some "request_key"
    ∷ some "keyctl"
    ∷ some "semtimedop"
    ∷ some "vserver"
    ∷ some "ioprio_set"
    ∷ some "ioprio_get"
    ∷ some "inotify_init"
    ∷ some "inotify_add_watch"
    ∷ some "inotify_rm_watch"
    ∷ some "mbind"
    ∷ some "set_mempolicy"
    ∷ some "get_mempolicy"
    ∷ some "openat"
    ∷ some "mkdirat"
    ∷ some "mknodat"
    ∷ some "fchownat"
    ∷ some "futimesat"
    ∷ some "newfstatat"
    ∷ some "unlinkat"
    ∷ some "renameat"
    ∷ some "linkat"
    ∷ some "symlinkat"
    ∷ some "readlinkat"
    ∷ some "fchmodat"
    ∷ some "faccessat"
    ∷ some "PSELECT6"
    ∷ some "ppoll"
    ∷ some "unshare"
    ∷ some "set_robust_list"
    ∷ some "get_robust_list"
    ∷ some "splice"
    ∷ some "SYS_341"
    ∷ some "tee"
    ∷ some "vmsplice"
    ∷ some "move_pages"
    ∷ some "getcpu"
    ∷ some "epoll_pwait"
    ∷ some "kexec_load"
    ∷ some "utimensat"
    ∷ some "signalfd"
    ∷ some "timerfd"
    ∷ some "eventfd"
    ∷ some "fallocate"
    ∷ some "timerfd_settime"
    ∷ some "timerfd_gettime"
    ∷ some "signalfd4"
    ∷ some "eventfd2"
    ∷ some "epoll_create1"
    ∷ some "dup3"
    ∷ some "pipe2"
    ∷ some "inotify_init1"
    ∷ some "preadv"
    ∷ some "pwritev"
    ∷ some "rt_tgsigqueueinfo"
    ∷ some "perf_event_open"
    ∷ some "recvmmsg"
    ∷ some "accept4"
    ∷ some "fanotify_init"
    ∷ some "fanotify_mark"
    ∷ some "prlimit64"
    ∷ some "name_to_handle_at"
    ∷ some "open_by_handle_at"
    ∷ some "clock_adjtime"
    ∷ some "syncfs"
    ∷ some "sendmmsg"
    ∷ some "setns"
    ∷ some "process_vm_readv"
    ∷ some "process_vm_writev"
    ∷ some "kcmp"
    ∷ some "finit_module"
    ∷ some "sched_setattr"
    ∷ some "sched_getattr"
    ∷ some "renameat2"
    ∷ some "seccomp"
    ∷ some "getrandom"
    ∷ some "memfd_create"
    ∷ some "bpf"
    ∷ some "execveat"
    ∷ some "cmpxchg"
    ∷ none
    ∷ some "breakpoint"
    ∷ some "cacheflush"
    ∷ some "usr26"
    ∷ some "usr32"
    ∷ some "set_tls"
    ∷ []

unfoldable pub sysent_arm : List (Option String)
unfolding sysent_arm_low sysent_arm_middle sysent_arm_high
sysent_arm = sysent_arm_low ++ (sysent_arm_middle ++ (sysent_arm_high))
