-- ===== src/Strace/Loop.antt =====
-- handle_syscall and main of examples/pink-simple-strace.c.
pub mod Turns
mod Tests
use Prim.Native.String.{String}
use text.Mathlib.Text.{◌==◌ as str_eq}
use pinktrace.Prelude.{
  ℕ, zero, suc, ◌+◌, ◌-◌, ◌^◌, Bool, true, false, ◌||◌, Option, none, some, List, [], ◌∷◌, ◌==◌,
  if◌then◌else◌, ℤ, pos, negsuc, is_neg, abs_neg, pos_part, signed64, leb, u32, not,
}
use pinktrace.System.{State, M, get_errno}
use pinktrace.System.Loop.{D, ◌>>=◌, ◌>>◌, ret, lift, out_of_fuel}
use pinktrace.Trace
use pinktrace.Read
use pinktrace.Event
use pinktrace.Name.{name_syscall}
use pinktrace.Strace.{Print, literal, number, printf, fputc, Host, Process}
use pinktrace.Strace.Decode.Socketcall.{decode_socketcall}
use pinktrace.Strace.Decode.{complain, process_update, print_ret, decode_open, decode_execve}

abbrev esrch : ℕ
esrch = 3

abbrev echild : ℕ
echild = 10

-- What a round of the loop of main comes to: another round, or the value that main returns.
pub data Next : Type 0 where
  again : Process → Next
  finished : ℤ → Next

-- The last lines that main prints.
abbrev exit_line : (pid code : ℕ) → Print
exit_line pid code =
    printf "Child %d exited normally with return code %d\n"
      (number (pos pid) ∷ number (pos code) ∷ [])

abbrev signal_line : (pid signal : ℕ) → Print
signal_line pid signal =
    printf "Child %d exited with signal %d\n" (number (pos pid) ∷ number (pos signal) ∷ [])

-- `fuel` is for the loop of decode_execve.
module _ {K : Type 0} (host : Host K) (fuel : ℕ) where
  -- The decoder of a system call by its name.
  decode_named : (proc : Process) → (scno : ℕ) → Option String → D K (Unit {0})
  decode_named proc scno none = lift (host.out (printf "%ld()" (number (signed64 scno) ∷ [])))
  decode_named proc scno (some scname) =
      if str_eq scname "open"
      then decode_open host proc
      else if str_eq scname "execve"
      then decode_execve host proc fuel
      else if str_eq scname "socketcall" || str_eq scname "bind" || str_eq scname "connect"
      then decode_socketcall host proc scname
      else lift (host.out (printf "%s()" (literal scname ∷ [])))

  -- The end of a system call.
  leaving : Process → D K Process
  leaving proc = do
    lift (host.out (fputc " "))
    print_ret host proc
    lift (host.out (fputc "\n"))
    ret (record proc { insyscall = false })

  -- Its entry: in a build for x86-64 pink_read_syscall returns 0.
  entering : Process → D K Process
  unfolding decode_named
  entering proc =
      let scno = Read.syscall host.layout proc.regs in
      do
        decode_named proc scno (name_syscall host.build scno (pos proc.abi))
        ret (record proc { insyscall = true })

  pub handle_syscall : Process → D K Process
  handle_syscall proc = if proc.insyscall then leaving proc else entering proc

  -- The switch on the event.
  on_event : (event : ℕ) → Process → D K Next
  unfolding handle_syscall Event.number
  on_event event proc =
      if event == 0
      then (do
        proc' ← lift (process_update host proc)
        proc'' ← handle_syscall proc'
        ret (again proc''))
      else if event == Event.number Event.exec
      then (do proc' ← lift (process_update host proc); ret (again proc'))
      else ret (again proc)

  -- What follows a waitpid(2) that gave `status`.
  on_status : (status : ℕ) → Process → D K Next
  unfolding on_event
  on_status status proc =
      let h = host.headers in
      if h.wifexited status
      then (do
        lift (host.out (exit_line proc.pid (h.wexitstatus status)))
        ret (finished (pos (h.wexitstatus status))))
      else if h.wifsignaled status
      then (do
        lift (host.out (signal_line proc.pid (h.wtermsig status)))
        ret (finished (pos (128 + h.wtermsig status))))
      else on_event (Event.decide status) proc

  -- `sig` is 0 in every round.
  pub round : Process → D K Next
  unfolding on_status
  round proc = do
    r ← lift (Trace.syscall host.sys.ptrace proc.pid 0)
    if is_neg r
        then (do
          lift (host.perror "pink_trace_syscall")
          ret (finished (if abs_neg r == esrch then pos 0 else pos 1)))
        else (do
          (pid, status) ← lift (host.waitpid proc.pid)
          if is_neg pid
              then (do
                lift (host.perror "waitpid")
                e ← lift get_errno
                ret (finished (if e == echild then pos 0 else pos 1)))
              else on_status status (record proc { pid = pos_part pid }))

  -- The loop of main, with a bound on its rounds.
  pub trace_loop : (rounds : ℕ) → Process → D K ℤ
  trace_loop zero proc s = none
  trace_loop (suc rounds) proc s = elim (round proc s) [
    | none ↦ none
    | some (finished code, t) ↦ some (code, t)
    | some (again proc', t) ↦ trace_loop rounds proc' t
  ]

  -- The parent's part of main, from waitpid(2) on: assert(event == 0) aborts.
  pub parent :
      (flag : Trace.TraceOption → ℕ)
      → (have_option : Trace.TraceOption → Bool) → (rounds : ℕ) → Process
      → D K ℤ
  unfolding trace_loop
  parent flag have_option rounds proc = do
    (_, status) ← lift (host.waitpid proc.pid)
    if not (Event.decide status == 0) then (λ s. none) else (do
      r ← lift (Trace.setup host.sys.ptrace host.have have_option flag proc.pid (1 + 2 ^ 4))
      if is_neg r
          then (do
            lift (complain host r "pink_trace_setup")
            lift (Trace.kill host.kill host.have proc.pid (2 ^ 32 - 1) 9)
            ret (pos 1))
          else (do
            proc' ← lift (process_update host proc)
            lift (
                host.out (
                  printf "Child %d runs in ABI:%d\n"
                    (number (pos proc'.pid) ∷ number (pos proc'.abi) ∷ [])))
            trace_loop rounds (record proc' { insyscall = false })))
