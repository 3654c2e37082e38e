-- ===== src/Python/Tests.antt =====
-- A kernel with one process, and names from Python.
use pinktrace.Prelude.{
  ◌≢◌, ◌==◌, if◌then◌else◌, is_zero, ℕ, ◌-◌, ◌^◌, ◌≡◌, refl, arith, true, false, Bool, none, some,
  ℤ, pos, negsuc,
}
use pinktrace.System.{Request, State, M, PtraceCall, enosys}
use pinktrace.Trace.{Have, KillCall}
use pinktrace.Trace.Supported.{HasAll}
use pinktrace.Abi.{Arch}
use pinktrace.Name.Builds.{build_of}
use pinktrace.Name
use pinktrace.Python.{pink_check_null, PyObject, py_int, py_str, system_error, Result}
use pinktrace.Python.Protocol.{Obeys, PyCall, seize, run, run-Obeys, run-unsupported}
use pinktrace.Python.Name.{pinkpy_name_syscall, pinkpy_lookup_syscall}
use pinktrace.Python.Names.{pinkpy_lookup_syscall-pinkpy_name_syscall}

abbrev esrch : ℕ
esrch = 3

-- The process 7 exists, and calls on it succeed: they leave errno alone.
abbrev one_process : PtraceCall (Unit {0})
one_process req pid addr word s =
    if pid == 7 then (0, s) else (2 ^ 64 - 1, record s { errno = esrch })

abbrev threads_only : KillCall → M (Unit {0}) ℤ
threads_only (KillCall.kill_process pid sig) s = (negsuc 0, record s { errno = esrch })
threads_only _ s = (pos 0, s)

abbrev having : Bool → Have
having b = record {
  geteventmsg = b;
  getregs = b;
  setregs = b;
  getregset = b;
  setregset = b;
  getsiginfo = b;
  setup = b;
  sysemu = b;
  seize = b;
  interrupt = b;
  listen = b;
  tkill = b;
  tgkill = b;
}

having-HasAll : HasAll (having true)
having-HasAll = record {
  geteventmsg = refl;
  setup = refl;
  sysemu = refl;
  seize = refl;
  interrupt = refl;
  listen = refl;
}

abbrev start : State (Unit {0})
start = record { errno = 0; kernel = tt }

abbrev ran : Bool → PyCall → Result
ran b c = (run one_process threads_only (having b) 65 9 (λ k a. 0) (λ o. true) (λ o. 1) c start).0

one_process-errno :
    (req : Request) (pid addr word : ℕ) (s : State (Unit {0}))
    → s.errno ≢ enosys
    → (one_process req pid addr word s).1.errno ≢ enosys
one_process-errno req pid addr word s h = ground (arith, h)

threads_only-errno :
    (c : KillCall) (s : State (Unit {0}))
    → is_zero (threads_only c s).0 ≡ false
    → (threads_only c s).1.errno ≢ enosys
threads_only-errno (KillCall.kill_process pid sig) s failed = omega arith
threads_only-errno (KillCall.tkill tid sig) s failed = cc
threads_only-errno (KillCall.tgkill tgid tid sig) s failed = cc

run-Obeys_example : Obeys (ran true (seize (some (7, some 4))))
run-Obeys_example =
    run-Obeys one_process threads_only (having true) 65 9 (λ k a. 0) (λ o. true) (λ o. 1)
      (seize (some (7, some 4))) start having-HasAll one_process-errno threads_only-errno

-- Only PTRACE_SEIZE is missing.
abbrev older : Have
older = record (having true) { seize = false }

run-unsupported_example :
    (v : PyObject) × ((run one_process threads_only older 65 9
        (λ k a. 0)
        (λ o. true)
        (λ o. 1)
        (seize (some (7, none)))
        start).0
      ≡ (some v, some system_error))
run-unsupported_example =
    run-unsupported one_process threads_only older 65 9 (λ k a. 0) (λ o. true) (λ o. 1)
      (seize (some (7, none))) start refl refl

write_named :
    pinkpy_name_syscall (build_of Arch.x86_64) (some (1, none)) ≡ (some (py_str "write"), none)
unfolding pinkpy_name_syscall pink_check_null Name.name_syscall Name.named Name.scno_to_place
    build_of Name.x86_64
write_named = refl

pinkpy_lookup_syscall-pinkpy_name_syscall_example :
    pinkpy_lookup_syscall (build_of Arch.x86_64) (some ("write", none))
    ≡ (some (py_int (pos 1)), none)
pinkpy_lookup_syscall-pinkpy_name_syscall_example =
    pinkpy_lookup_syscall-pinkpy_name_syscall Arch.x86_64 "write" 1 none (λ e. cc) write_named
