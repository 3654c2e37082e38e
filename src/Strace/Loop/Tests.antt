-- ===== src/Strace/Loop/Tests.antt =====
-- A tracee that makes a system call and is then killed.
use pinktrace.Prelude.{
  ℕ, ◌≡◌, ◌≢◌, refl, arith, false, Option, some, List, [], ◌∷◌, ◌==◌, if◌then◌else◌, pos, negsuc,
  not, ◌%◌, ◌/◌,
}
use pinktrace.System.{Request, State, PtraceCall, efault}
use pinktrace.Trace.{Have, KillCall, minus_one}
use pinktrace.Regset.{Regset, Layout, Blocks}
use pinktrace.Name.{Build, x86_64}
use pinktrace.Strace.{literal, printf, Print, Headers, Host, Process}
use pinktrace.Trace
use pinktrace.Event
use pinktrace.Regset
use pinktrace.Name
use pinktrace.Read
use pinktrace.Strace.Decode.{decode_open, complain, process_update}
use pinktrace.Strace.Decode.Open.{decode_open-out}
use pinktrace.Strace.Loop.{Next, again, round, entering}
use pinktrace.Strace.Loop.Turns.{Reach, here, stopped, passed, status_of, Reach-insyscall}

-- The wait statuses to come, and what was printed.
record World : Type 0 where
  statuses : List ℕ
  printed : List Print

abbrev first_of : List ℕ → ℕ
first_of [] = 0
first_of (x ∷ xs) = x

abbrev rest_of : List ℕ → List ℕ
rest_of [] = []
rest_of (x ∷ xs) = xs

abbrev resumes : PtraceCall World
resumes Request.syscall pid a w s = (0, s)
resumes _ pid a w s = (minus_one, record s { errno = efault })

abbrev headers : Headers
headers = record {
  o_rdonly = 0;
  o_wronly = 1;
  o_rdwr = 2;
  o_creat = 64;
  path_max = 4096;
  af_unix = 1;
  af_inet = 2;
  af_inet6 = 10;
  af_netlink = some 16;
  sun_path = λ u. u;
  sin_port = λ u. 0;
  sin_addr = λ u. u;
  sin6_port = λ u. 0;
  sin6_addr = λ u. u;
  nl_pid = λ u. 0;
  nl_groups = λ u. 0;
  wifexited = λ status. status % 128 == 0;
  wexitstatus = λ status. status / 256 % 256;
  wifsignaled = λ status. if status % 128 == 0 then false else not (status % 128 == 127);
  wtermsig = λ status. status % 128;
}

abbrev nothing : Have
nothing = record {
  geteventmsg = false;
  getregs = false;
  setregs = false;
  getregset = false;
  setregset = false;
  getsiginfo = false;
  setup = false;
  sysemu = false;
  seize = false;
  interrupt = false;
  listen = false;
  tkill = false;
  tgkill = false;
}

abbrev host : Host World
host = record {
  sys = record {
    ptrace = resumes;
    have_readv = false;
    readv = λ pid a n s. ((negsuc 0, []), s);
    have_writev = false;
    writev = λ pid a b s. (negsuc 0, s);
  };
  have = nothing;
  blocks = record { words_at = λ k p i. 0; length_at = λ k io. 0; set_io = λ io b n k. k };
  layout = record { word = λ r. 0; size = 216 };
  io = 0;
  union = 0;
  nt_prstatus = 1;
  build = x86_64;
  nerrnos = 134 ∷ 134 ∷ 134 ∷ [];
  headers = headers;
  junk = [];
  out = λ p s. (tt, record s { kernel = record s.kernel { printed = p ∷ s.kernel.printed } });
  perror = λ what s. (tt, s);
  kill = λ c s. (pos 0, s);
  waitpid = λ pid s. (
    (pos pid, first_of s.kernel.statuses),
    record s { kernel = record s.kernel { statuses = rest_of s.kernel.statuses } },
  );
}

abbrev process : Process
process = record {
  pid = 7;
  abi = 0;
  insyscall = false;
  regs = record { words = λ i. 0; iov_len = 0; abi = 0 };
}

-- A stop without an event, one with PINK_EVENT_FORK, and the end by SIGKILL.
abbrev start : State World
start = record { errno = 0; kernel = record { statuses = 0x57f ∷ 0x1057f ∷ 9 ∷ []; printed = [] } }

abbrev run_of : Option (Next × State World) → Process × State World
run_of (some (again q, t)) = (q, t)
run_of _ = (process, start)

abbrev entered : Process × State World
entered = run_of (round host 1 process start)

abbrev forked : Process × State World
forked = run_of (round host 1 entered.0 entered.1)

enters : round host 1 process start ≡ some (again entered.0, entered.1)
unfolding round Trace.syscall Event.decide process_update Regset.fill Trace.get_regs entering
    Name.name_syscall Name.named x86_64 Name.scno_to_place Read.syscall Regset.reg64 complain
enters = refl

-- Its system call is the one with the number 0.
prints_name : entered.1.kernel.printed ≡ printf "%s()" (literal "read" ∷ []) ∷ []
unfolding round Trace.syscall Event.decide process_update Regset.fill Trace.get_regs entering
    Name.name_syscall Name.named x86_64 Name.scno_to_place Read.syscall Regset.reg64 complain
prints_name = refl

forks : round host 1 entered.0 entered.1 ≡ some (again forked.0, forked.1)
unfolding round Trace.syscall Event.decide process_update Regset.fill Trace.get_regs entering
    Name.name_syscall Name.named x86_64 Name.scno_to_place Read.syscall Regset.reg64 complain
forks = refl

at_entry : Event.decide (status_of host 1 process start) ≡ 0
unfolding Trace.syscall Event.decide
at_entry = refl

at_fork : Event.decide (status_of host 1 entered.0 entered.1) ≢ 0
unfolding round Trace.syscall Event.decide process_update Regset.fill Trace.get_regs entering
    Name.name_syscall Name.named x86_64 Name.scno_to_place Read.syscall Regset.reg64 complain
at_fork =
    let fork : Event.decide (status_of host 1 entered.0 entered.1) ≡ 1 = refl in
    λ h. omega (arith, h, fork)

two_rounds : Reach host 1 process start 2 1 forked.0 forked.1
two_rounds = passed (stopped here enters at_entry) forks at_fork

Reach-insyscall_example :
    forked.0.insyscall ≡ (if 1 % 2 == 0 then process.insyscall else not process.insyscall)
Reach-insyscall_example = Reach-insyscall host 1 process start 2 1 forked.0 forked.1 two_rounds

decode_open-out_example :
    decode_open (record host { out = λ p s. (tt, s) }) process start
    ≡ decode_open (record host { out = host.out }) process start
decode_open-out_example = decode_open-out host process (λ p s. (tt, s)) host.out start
