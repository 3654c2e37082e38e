-- ===== src/Trace.antt =====
-- pinktrace/trace.c: the wrapper of ptrace(2), and the functions that make one call through it.
-- The flags are those that configure finds out (PINK_HAVE_...). A pointer to a block of the
-- tracer's own memory is its address, and the block is part of the kernel's state.
pub mod Status
pub mod Options
pub mod Signals
pub mod Supported
mod Tests
use pinktrace.Prelude.{
  ℕ, ◌-◌, ◌/◌, ◌%◌, ◌^◌, ◌≡◌, Bool, true, false, not, ◌&&◌, Option, none, some, List, [], ◌∷◌, ◌==◌,
  if◌then◌else◌, ltb, ℤ, pos, negsuc, neg, is_neg, is_zero, sext32,
}
use Prim.Native.Nat.{bit_or}
use mathlib.Core.Option
use pinktrace.System.{
  Request, State, M, ◌>>=◌, ◌>>◌, pure, get_errno, set_errno, PtraceCall, eio, efault, einval,
  enosys,
}

-- -1 as a `long`.
abbrev pub minus_one : ℕ
minus_one = 2 ^ 64 - 1

-- What configure defines, as far as trace.c asks.
pub record Have : Type 0 where
  pub geteventmsg : Bool
  pub getregs : Bool
  pub setregs : Bool
  pub getregset : Bool
  pub setregset : Bool
  pub getsiginfo : Bool
  pub setup : Bool
  pub sysemu : Bool
  pub seize : Bool
  pub interrupt : Bool
  pub listen : Bool
  pub tkill : Bool
  pub tgkill : Bool

-- PINK_TRACE_OPTION_...
pub data TraceOption : Type 0 where
  sysgood fork vfork clone exec vfork_done exit seccomp exitkill : TraceOption

-- options & PINK_TRACE_OPTION_x, which is 1 << k.
pub requested : ℕ → TraceOption → Bool
requested options sysgood = options % 2 == 1
requested options fork = options / 2 ^ 1 % 2 == 1
requested options vfork = options / 2 ^ 2 % 2 == 1
requested options clone = options / 2 ^ 3 % 2 == 1
requested options exec = options / 2 ^ 4 % 2 == 1
requested options vfork_done = options / 2 ^ 5 % 2 == 1
requested options exit = options / 2 ^ 6 % 2 == 1
requested options seccomp = options / 2 ^ 7 % 2 == 1
requested options exitkill = options / 2 ^ 8 % 2 == 1

-- One block of pink_trace_setup: `none` is its `return -EINVAL`.
pub add_option : (wanted have : Bool) → (flag ptrace_options : ℕ) → Option ℕ
add_option wanted have flag ptrace_options =
    if wanted
    then (if have then some (bit_or ptrace_options flag) else none)
    else some ptrace_options

-- The blocks in the order of the source. `flag` gives the PTRACE_O_... of sys/ptrace.h.
pub collect : List TraceOption → (TraceOption → Bool) → (TraceOption → ℕ) → ℕ → ℕ → Option ℕ
collect [] have flag options acc = some acc
collect (x ∷ xs) have flag options acc =
    Option.bind (add_option (requested options x) (have x) (flag x) acc)
      (collect xs have flag options)

abbrev pub all_options : List TraceOption
all_options = sysgood ∷ fork ∷ vfork ∷ clone ∷ exec ∷ vfork_done ∷ exit ∷ seccomp ∷ exitkill ∷ []

module _ {K : Type 0} (sys : PtraceCall K) where
  -- The result, and what is stored through `retval`, if that is not NULL.
  unfoldable pub ptrace : Request → (pid addr word : ℕ) → (retval : Bool) → M K (ℤ × Option ℕ)
  ptrace req pid addr word retval = do
    set_errno 0
    val ← sys req pid addr word
    e ← get_errno
    if val == minus_one && not (e == 0)
        then (if e == eio
            then (do set_errno efault; pure (neg efault, none))
            else pure (neg e, none))
        else pure (pos 0, if retval then some val else none)

  -- A call with NULL for `retval`.
  unfoldable pub call : Request → (pid addr word : ℕ) → M K ℤ
  unfolding ptrace
  call req pid addr word = do r ← ptrace req pid addr word false; pure r.0

  -- A call under an #if, with `return -ENOSYS` in its #else.
  call_if : Bool → Request → (pid addr word : ℕ) → M K ℤ
  unfolding call
  call_if have req pid addr word = if have then call req pid addr word else pure (neg enosys)

  pub me : M K ℤ
  unfolding call
  me = call Request.traceme 0 0 0

  pub resume : (pid sig : ℕ) → M K ℤ
  unfolding call
  resume pid sig = call Request.cont pid 0 (sext32 sig)

  pub singlestep : (pid sig : ℕ) → M K ℤ
  unfolding call
  singlestep pid sig = call Request.singlestep pid 0 (sext32 sig)

  unfoldable pub syscall : (pid sig : ℕ) → M K ℤ
  unfolding call
  syscall pid sig = call Request.syscall pid 0 (sext32 sig)

  pub geteventmsg : Have → (pid message : ℕ) → M K ℤ
  unfolding call_if
  geteventmsg have pid message = call_if have.geteventmsg Request.geteventmsg pid 0 message

  unfoldable pub get_regs : Have → (pid regs : ℕ) → M K ℤ
  unfolding call_if
  get_regs have pid regs = call_if have.getregs Request.getregs pid 0 regs

  unfoldable pub get_regset : Have → (pid regset n_type : ℕ) → M K ℤ
  unfolding call_if
  get_regset have pid regset n_type =
      call_if have.getregset Request.getregset pid (sext32 n_type) regset

  unfoldable pub set_regs : Have → (pid regs : ℕ) → M K ℤ
  unfolding call_if
  set_regs have pid regs = call_if have.setregs Request.setregs pid 0 regs

  unfoldable pub set_regset : Have → (pid regset n_type : ℕ) → M K ℤ
  unfolding call_if
  set_regset have pid regset n_type =
      call_if have.setregset Request.setregset pid (sext32 n_type) regset

  pub get_siginfo : Have → (pid info : ℕ) → M K ℤ
  unfolding call_if
  get_siginfo have pid info = call_if have.getsiginfo Request.getsiginfo pid 0 info

  set_options : (pid : ℕ) → Option ℕ → M K ℤ
  unfolding call
  set_options pid none = pure (neg einval)
  set_options pid (some ptrace_options) = call Request.setoptions pid 0 (sext32 ptrace_options)

  pub setup : Have → (TraceOption → Bool) → (TraceOption → ℕ) → (pid options : ℕ) → M K ℤ
  unfolding set_options collect add_option requested
  setup have have_option flag pid options =
      if have.setup
      then set_options pid (collect all_options have_option flag options 0)
      else pure (neg enosys)

  pub sysemu : Have → (pid sig : ℕ) → M K ℤ
  unfolding call_if
  sysemu have pid sig = call_if have.sysemu Request.sysemu pid 0 (sext32 sig)

  -- The source tests PINK_HAVE_SYSEMU here too.
  pub sysemu_singlestep : Have → (pid sig : ℕ) → M K ℤ
  unfolding call_if
  sysemu_singlestep have pid sig = call_if have.sysemu Request.sysemu_singlestep pid 0 (sext32 sig)

  pub attach : (pid : ℕ) → M K ℤ
  unfolding call
  attach pid = call Request.attach pid 0 0

  pub detach : (pid sig : ℕ) → M K ℤ
  unfolding call
  detach pid sig = call Request.detach pid 0 (sext32 sig)

  pub seize : Have → (pid options : ℕ) → M K ℤ
  unfolding call_if
  seize have pid options = call_if have.seize Request.seize pid 0 (sext32 options)

  pub interrupt : Have → (pid : ℕ) → M K ℤ
  unfolding call_if
  interrupt have pid = call_if have.interrupt Request.interrupt pid 0 0

  pub listen : Have → (pid : ℕ) → M K ℤ
  unfolding call_if
  listen have pid = call_if have.listen Request.listen pid 0 0

-- The system calls of pink_trace_kill.
pub data KillCall : Type 0 where
  tkill : (tid sig : ℕ) → KillCall
  tgkill : (tgid tid sig : ℕ) → KillCall
  kill_process : (pid sig : ℕ) → KillCall

-- 0 < x for a 32-bit `pid_t`.
pub is_positive : ℕ → Bool
is_positive x = ltb 0 x && ltb x (2 ^ 31)

module _ {K : Type 0} (sys : KillCall → M K ℤ) where
  -- r < 0 ? -errno : 0
  or_errno : KillCall → M K ℤ
  or_errno c = do r ← sys c; e ← get_errno; pure (if is_neg r then neg e else pos 0)

  -- r ? -errno : 0
  or_errno_nonzero : KillCall → M K ℤ
  or_errno_nonzero c = do r ← sys c; e ← get_errno; pure (if is_zero r then pos 0 else neg e)

  pub kill : Have → (tid tgid sig : ℕ) → M K ℤ
  kill have tid tgid sig =
      if not (is_positive tid)
      then pure (neg einval)
      else if not (is_positive tgid)
      then (if have.tkill
          then or_errno (KillCall.tkill tid sig)
          else or_errno (KillCall.kill_process tid sig))
      else if have.tgkill
      then or_errno_nonzero (KillCall.tgkill tgid tid sig)
      else if have.tkill
      then or_errno (KillCall.tkill tid sig)
      else or_errno (KillCall.kill_process tid sig)
