-- ===== src/Trace/Tests.antt =====
-- The functions of pinktrace/trace.c on small kernels, and its theorems at them.
use pinktrace.Prelude.{ℕ, ◌≡◌, refl, arith, inr, Bool, true, false, none, ℤ, negsuc, if◌then◌else◌}
use pinktrace.System.{Request, State, PtraceCall, M, eio, efault}
use pinktrace.Trace.{
  minus_one, Have, TraceOption, sysgood, fork, vfork, clone, exec, vfork_done, exit, seccomp,
  exitkill, ptrace, call, setup, KillCall, tgkill, kill, is_positive,
}
use pinktrace.Trace.Status.{Reports, ptrace-Reports}
use pinktrace.Trace.Options.{table, lacks, setup-or_bits}
use pinktrace.Trace.Signals.{ReturnsStatus, target, outcome, kill-target}

abbrev start : State ℕ
start = record { errno = 7; kernel = 0 }

-- Every call fails with EIO.
abbrev broken : PtraceCall ℕ
broken req pid addr word s = (minus_one, record s { errno = eio })

-- Every call returns -1 and leaves errno alone; the kernel counts the calls by their word.
abbrev all_ones : PtraceCall ℕ
all_ones req pid addr word s = (minus_one, record { errno = s.errno; kernel = word })

ptrace-Reports_example : Reports (ptrace broken Request.peekdata 1 8 0 true start)
ptrace-Reports_example = ptrace-Reports broken Request.peekdata 1 8 0 true start

eio_is_efault :
    ptrace broken Request.peekdata 1 8 0 true start
    ≡ ((negsuc 13, none), record { errno = efault; kernel = 0 })
unfolding ptrace
eio_is_efault = refl

abbrev everything : Have
everything = record {
  geteventmsg = true;
  getregs = true;
  setregs = true;
  getregset = true;
  setregset = true;
  getsiginfo = true;
  setup = true;
  sysemu = true;
  seize = true;
  interrupt = true;
  listen = true;
  tkill = true;
  tgkill = true;
}

-- PTRACE_O_TRACE... of Linux.
abbrev linux_flag : TraceOption → ℕ
linux_flag sysgood = 1
linux_flag fork = 2
linux_flag vfork = 4
linux_flag clone = 8
linux_flag exec = 16
linux_flag vfork_done = 32
linux_flag exit = 64
linux_flag seccomp = 128
linux_flag exitkill = 0x100000

-- All but PTRACE_O_EXITKILL.
abbrev older : TraceOption → Bool
older exitkill = false
older _ = true

setup-or_bits_example : setup all_ones everything older linux_flag 1 19 start ≡ (
    if lacks 19 0 (table older linux_flag)
    then (negsuc 21, start)
    else call all_ones Request.setoptions 1 0 19 start)
setup-or_bits_example = setup-or_bits all_ones everything older linux_flag 1 19 start refl

exitkill_lacking : lacks 0x101 0 (table older linux_flag) ≡ true
exitkill_lacking = refl

-- Each call fails with ESRCH, and the kernel keeps the signal of the last tgkill.
abbrev no_such : KillCall → M ℕ ℤ
no_such (tgkill tgid tid sig) s = (negsuc 0, record { errno = 3; kernel = sig })
no_such _ s = (negsuc 0, record s { errno = 3 })

no_such-ReturnsStatus : ReturnsStatus no_such
no_such-ReturnsStatus (tgkill tgid tid sig) s = inr (refl, omega arith)
no_such-ReturnsStatus _ s = inr (refl, omega arith)

kill-target_example :
    kill no_such everything 8 5 9 start ≡ outcome (no_such (target everything 8 5 9) start)
kill-target_example =
    kill-target no_such everything 8 5 9 start no_such-ReturnsStatus (unfold is_positive in refl)
