-- ===== src/Name/Tables/Powerpc.antt =====
-- pinktrace/linux/powerpc/syscallent.h: the system calls of PowerPC.
-- Line 320 has no comma, so its literal and that of line 321 are one entry.
use Prim.Native.String.{String}
use pinktrace.Prelude.{List, [], ◌∷◌, ◌++◌, Option, some}

unfoldable pub sysent_powerpc_low : List (Option String)
sysent_powerpc_low =
    some "restart_syscall"
    ∷ some "exit"
    ∷ some "fork"
    ∷ some "read"
    ∷ some "write"
    ∷ some "open"
    ∷ some "close"
    ∷ some "waitpid"
    ∷ some "creat"
    ∷ some "link"
    ∷ some "unlink"
    ∷ some "execve"
    ∷ some "chdir"
    ∷ some "time"
    ∷ some "mknod"
    ∷ some "chmod"
    ∷ some "lchown"
    ∷ some "break"
    ∷ some "oldstat"
    ∷ some "lseek"
    ∷ some "getpid"
    ∷ some "mount"
    ∷ some "oldumount"
    ∷ some "setuid"
    ∷ some "getuid"
    ∷ some "stime"
    ∷ some "ptrace"
    ∷ some "alarm"
    ∷ some "oldfstat"
    ∷ some "pause"
    ∷ some "utime"
    ∷ some "stty"
    ∷ some "gtty"
    ∷ some "access"
    ∷ some "nice"
    ∷ some "ftime"
    ∷ some "sync"
    ∷ some "kill"
    ∷ some "rename"
    ∷ some "mkdir"
    ∷ some "rmdir"
    ∷ some "dup"
    ∷ some "pipe"
    ∷ some "times"
    ∷ some "prof"
    ∷ some "brk"
    ∷ some "setgid"
    ∷ some "getgid"
    ∷ some "signal"
    ∷ some "geteuid"
    ∷ some "getegid"
    ∷ some "acct"
    ∷ some "umount"
    ∷ some "lock"
    ∷ some "ioctl"
    ∷ some "fcntl"
    ∷ some "sys_mpx"
    ∷ some "setpgid"
    ∷ some "ulimit"
    ∷ some "oldolduname"
    ∷ some "umask"
    ∷ some "chroot"
    ∷ some "ustat"
    ∷ some "dup2"
    ∷ some "getppid"
    ∷ some "getpgrp"
    ∷ some "setsid"
    ∷ some "sigaction"
    ∷ some "sgetmask"
    ∷ some "ssetmask"
    ∷ some "setreuid"
    ∷ some "setregid"
    ∷ some "sigsuspend"
    ∷ some "sigpending"
    ∷ some "sethostname"
    ∷ some "setrlimit"
    ∷ some "oldgetrlimit"
    ∷ some "getrusage"
    ∷ some "gettimeofday"
    ∷ some "settimeofday"
    ∷ some "getgroups"
    ∷ some "setgroups"
    ∷ some "oldselect"
    ∷ some "symlink"
    ∷ some "oldlstat"
    ∷ some "readlink"
    ∷ some "uselib"
    ∷ some "swapon"
    ∷ some "reboot"
    ∷ some "readdir"
    ∷ some "mmap"
    ∷ some "munmap"
    ∷ some "truncate"
    ∷ some "ftruncate"
    ∷ some "fchmod"
    ∷ some "fchown"
    ∷ some "getpriority"
    ∷ some "setpriority"
    ∷ some "profil"
    ∷ some "statfs"
    ∷ some "fstatfs"
    ∷ some "ioperm"
    ∷ some "socketcall"
    ∷ some "syslog"
    ∷ some "setitimer"
    ∷ some "getitimer"
    ∷ some "stat"
    ∷ some "lstat"
    ∷ some "fstat"
    ∷ some "olduname"
    ∷ some "SYS_110"
    ∷ some "vhangup"
    ∷ some "idle"
    ∷ some "SYS_113"
    ∷ some "wait4"
    ∷ some "swapoff"
    ∷ some "sysinfo"
    ∷ some "ipc"
    ∷ some "fsync"
    ∷ some "sigreturn"
    ∷ some "clone"
    ∷ some "setdomainname"
    ∷ some "uname"
    ∷ some "SYS_123"
    ∷ some "adjtimex"
    ∷ some "mprotect"
    ∷ some "sigprocmask"
    ∷ some "create_module"
    ∷ some "init_module"
    ∷ some "delete_module"
    ∷ some "get_kernel_syms"
    ∷ some "quotactl"
    ∷ some "getpgid"
    ∷ some "fchdir"
    ∷ some "bdflush"
    ∷ some "sysfs"
    ∷ some "personality"
    ∷ some "afs_syscall"
    ∷ some "setfsuid"
    ∷ some "setfsgid"
    ∷ some "_llseek"
    ∷ some "getdents"
    ∷ some "select"
    ∷ some "flock"
    ∷ some "msync"
    ∷ some "readv"
    ∷ some "writev"
    ∷ some "getsid"
    ∷ []

unfoldable pub sysent_powerpc_middle : List (Option String)
sysent_powerpc_middle =
    some "fdatasync"
    ∷ some "_sysctl"
    ∷ some "mlock"
    ∷ some "munlock"
    ∷ some "mlockall"
    ∷ some "munlockall"
    ∷ some "sched_setparam"
    ∷ some "sched_getparam"
    ∷ some "sched_setscheduler"
    ∷ some "sched_getscheduler"
    ∷ some "sched_yield"
    ∷ some "sched_get_priority_max"
    ∷ some "sched_get_priority_min"
    ∷ some "sched_rr_get_interval"
    ∷ some "nanosleep"
    ∷ some "mremap"
    ∷ some "setresuid"
    ∷ some "getresuid"
    ∷ some "query_module"
    ∷ some "poll"
    ∷ some "nfsservctl"
    ∷ some "setresgid"
    ∷ some "getresgid"
    ∷ some "prctl"
    ∷ some "rt_sigreturn"
    ∷ some "rt_sigaction"
    ∷ some "rt_sigprocmask"
    ∷ some "rt_sigpending"
    ∷ some "rt_sigtimedwait"
    ∷ some "rt_sigqueueinfo"
    ∷ some "rt_sigsuspend"
    ∷ some "pread64"
    ∷ some "pwrite64"
    ∷ some "chown"
    ∷ some "getcwd"
    ∷ some "capget"
    ∷ some "capset"
    ∷ some "sigaltstack"
    ∷ some "sendfile"
    ∷ some "getpmsg"
    ∷ some "putpmsg"
    ∷ some "vfork"
    ∷ some "getrlimit"
    ∷ some "readahead"
    ∷ some "mmap2"
    ∷ some "truncate64"
    ∷ some "ftruncate64"
    ∷ some "stat64"
    ∷ some "lstat64"
    ∷ some "fstat64"
    ∷ some "pciconfig_read"
    ∷ some "pciconfig_write"
    ∷ some "pciconfig_iobase"
    ∷ some "MOL"
    ∷ some "getdents64"
    ∷ some "pivot_root"
    ∷ some "fcntl64"
    ∷ some "madvise"
    ∷ some "mincore"
    ∷ some "gettid"
    ∷ some "tkill"
    ∷ some "setxattr"
    ∷ some "lsetxattr"
    ∷ some "fsetxattr"
    ∷ some "getxattr"
    ∷ some "lgetxattr"
    ∷ some "fgetxattr"
    ∷ some "listxattr"
    ∷ some "llistxattr"
    ∷ some "flistxattr"
    ∷ some "removexattr"
    ∷ some "lremovexattr"
    ∷ some "fremovexattr"
    ∷ some "futex"
    ∷ some "sched_setaffinity"
    ∷ some "sched_getaffinity"
    ∷ some "SYS_224"
    ∷ some "tux"
    ∷ some "sendfile64"
    ∷ some "io_setup"
    ∷ some "io_destroy"
    ∷ some "io_getevents"
    ∷ some "io_submit"
    ∷ some "io_cancel"
    ∷ some "set_tid_address"
    ∷ some "fadvise64"
    ∷ some "exit_group"
    ∷ some "lookup_dcookie"
    ∷ some "epoll_create"
    ∷ some "epoll_ctl"
    ∷ some "epoll_wait"
    ∷ some "remap_file_pages"
    ∷ some "timer_create"
    ∷ some "timer_settime"
    ∷ some "timer_gettime"
    ∷ some "timer_getoverrun"
    ∷ some "timer_delete"
    ∷ some "clock_settime"
    ∷ some "clock_gettime"
    ∷ some "clock_getres"
    ∷ some "clock_nanosleep"
    ∷ some "swapcontext"
    ∷ some "tgkill"
    ∷ some "utimes"
    ∷ some "statfs64"
    ∷ some "fstatfs64"
    ∷ some "fadvise64_64"
    ∷ some "rtas"
    ∷ some "debug_setcontext"
    ∷ some "vserver"
    ∷ some "SYS_258"
    ∷ some "mbind"
    ∷ some "get_mempolicy"
    ∷ some "set_mempolicy"
    ∷ some "mq_open"
    ∷ some "mq_unlink"
    ∷ some "mq_timedsend"
    ∷ some "mq_timedreceive"
    ∷ some "mq_notify"
    ∷ some "mq_getsetattr"
    ∷ some "sys_kexec_load"
    ∷ some "add_key"
    ∷ some "request_key"
    ∷ some "keyctl"
    ∷ some "waitid"
    ∷ some "ioprio_set"
    ∷ some "ioprio_get"
    ∷ some "inotify_init"
    ∷ some "inotify_add_watch"
    ∷ some "inotify_rm_watch"
    ∷ some "spu_run"
    ∷ some "spu_create"
    ∷ some "pselect6"
    ∷ some "ppoll"
    ∷ some "unshare"
    ∷ some "splice"
    ∷ some "tee"
    ∷ some "vmsplice"
    ∷ some "openat"
    ∷ some "mkdirat"
    ∷ some "mknodat"
    ∷ some "fchownat"
    ∷ some "futimesat"
    ∷ some "newfstatat"
    ∷ some "unlinkat"
    ∷ some "renameat"
    ∷ some "linkat"
    ∷ some "symlinkat"
    ∷ []

unfoldable pub sysent_powerpc_high : List (Option String)
sysent_powerpc_high =
    some "readlinkat"
    ∷ some "fchmodat"
    ∷ some "faccessat"
    ∷ some "set_robust_list"
    ∷ some "get_robust_list"
    ∷ some "move_pages"
    ∷ some "getcpu"
    ∷ some "epoll_pwait"
    ∷ some "SYS_304"
    ∷ some "signalfd"
    ∷ some "timerfd"
    ∷ some "eventfd"
    ∷ some "SYS_308"
    ∷ some "fallocate"
    ∷ some "subpage_prot"
    ∷ some "timerfd_settime"
    ∷ some "timerfd_gettime"
    ∷ some "signalfd4"
    ∷ some "eventfd2"
    ∷ some "epoll_create1"
    ∷ some "dup3"
    ∷ some "pipe2"
    ∷ some "inotify_init1"
    ∷ some "perf_event_openpreadv"
    ∷ some "pwritev"
    ∷ some "rt_tgsigqueueinfo"
    ∷ some "fanotify_init"
    ∷ some "fanotify_mark"
    ∷ some "prlimit64"
    ∷ some "socket"
    ∷ some "bind"
    ∷ some "connect"
    ∷ some "listen"
    ∷ some "accept"
    ∷ some "getsockname"
    ∷ some "getpeername"
    ∷ some "socketpair"
    ∷ some "send"
    ∷ some "sendto"
    ∷ some "recv"
    ∷ some "recvfrom"
    ∷ some "shutdown"
    ∷ some "setsockopt"
    ∷ some "getsockopt"
    ∷ some "sendmsg"
    ∷ some "recvmsg"
    ∷ some "recvmmsg"
    ∷ some "accept4"
    ∷ some "name_to_handle_at"
    ∷ some "open_by_handle_at"
    ∷ some "clock_adjtime"
    ∷ some "syncfs"
    ∷ some "sendmmsg"
    ∷ some "setns"
    ∷ some "process_vm_readv"
    ∷ some "process_vm_writev"
    ∷ some "kcmp"
    ∷ some "finit_module"
    ∷ []

unfoldable pub sysent_powerpc : List (Option String)
unfolding sysent_powerpc_low sysent_powerpc_middle sysent_powerpc_high
sysent_powerpc = sysent_powerpc_low ++ (sysent_powerpc_middle ++ (sysent_powerpc_high))
