-- ===== src/Python/Trace.antt =====
-- python/pinktrace/py-trace.c: the module trace. A `pid_t` and an `int` are 32-bit patterns.
use pinktrace.Prelude.{ℕ, ◌-◌, ◌^◌, Bool, Option, ℤ, pos, get_or}
use pinktrace.System.{M, PtraceCall}
use pinktrace.Trace.{Have, TraceOption, KillCall}
use pinktrace.Trace
use pinktrace.Python.{py_int, Result, parsed, pink_call, pink_call_true, pink_check_signal}

-- A process, and a signal that may be left out.
abbrev pub PidSig : Type 0
PidSig = Option (ℕ × Option ℕ)

-- The code of the functions that take a process and a signal.
unfoldable pub pid_sig : {K : Type 0} → (nsig : ℕ) → PidSig → (ℕ → ℕ → M K ℤ) → M K Result
unfolding pink_call_true pink_check_signal
pid_sig nsig args f =
    parsed args
      λ (pid, sig). pink_check_signal nsig (get_or 0 sig) (pink_call_true (f pid (get_or 0 sig)))

-- That of the functions that take a process alone.
unfoldable pub pid_only : {K : Type 0} → Option ℕ → (ℕ → M K ℤ) → M K Result
unfolding pink_call_true
pid_only args f = parsed args λ pid. pink_call_true (f pid)

-- `nsig` is _NSIG of signal.h.
module _ {K : Type 0} (sys : PtraceCall K) (have : Have) (nsig : ℕ) where
  unfoldable pub pinkpy_trace_me : M K Result
  unfolding pink_call_true
  pinkpy_trace_me = pink_call_true (Trace.me sys)

  unfoldable pub pinkpy_trace_resume : PidSig → M K Result
  unfolding pid_sig
  pinkpy_trace_resume args = pid_sig nsig args (Trace.resume sys)

  unfoldable pub pinkpy_trace_singlestep : PidSig → M K Result
  unfolding pid_sig
  pinkpy_trace_singlestep args = pid_sig nsig args (Trace.singlestep sys)

  unfoldable pub pinkpy_trace_syscall : PidSig → M K Result
  unfolding pid_sig
  pinkpy_trace_syscall args = pid_sig nsig args (Trace.syscall sys)

  -- `data` is the address of the local variable, and `long_at` what stands at an address.
  unfoldable pub pinkpy_trace_geteventmsg :
      (long_at : K → ℕ → ℕ) → (data_address : ℕ) → Option ℕ → M K Result
  unfolding pink_call
  pinkpy_trace_geteventmsg long_at data_address args = parsed args λ pid.
      pink_call (Trace.geteventmsg sys have pid data_address)
        (λ s. (py_int (pos (long_at s.kernel data_address)), s))

  unfoldable pub pinkpy_trace_setup :
      (TraceOption → Bool) → (TraceOption → ℕ) → Option (ℕ × ℕ) → M K Result
  unfolding pink_call_true
  pinkpy_trace_setup have_option flag args =
      parsed args
        λ (pid, options). pink_call_true (Trace.setup sys have have_option flag pid options)

  unfoldable pub pinkpy_trace_sysemu : PidSig → M K Result
  unfolding pid_sig
  pinkpy_trace_sysemu args = pid_sig nsig args (Trace.sysemu sys have)

  unfoldable pub pinkpy_trace_sysemu_singlestep : PidSig → M K Result
  unfolding pid_sig
  pinkpy_trace_sysemu_singlestep args = pid_sig nsig args (Trace.sysemu_singlestep sys have)

  unfoldable pub pinkpy_trace_attach : Option ℕ → M K Result
  unfolding pid_only
  pinkpy_trace_attach args = pid_only args (Trace.attach sys)

  unfoldable pub pinkpy_trace_detach : PidSig → M K Result
  unfolding pid_sig
  pinkpy_trace_detach args = pid_sig nsig args (Trace.detach sys)

  -- The options are called `sig`, and tested as a signal.
  unfoldable pub pinkpy_trace_seize : PidSig → M K Result
  unfolding pid_sig
  pinkpy_trace_seize args = pid_sig nsig args (Trace.seize sys have)

  unfoldable pub pinkpy_trace_interrupt : Option ℕ → M K Result
  unfolding pid_only
  pinkpy_trace_interrupt args = pid_only args (Trace.interrupt sys have)

  unfoldable pub pinkpy_trace_listen : Option ℕ → M K Result
  unfolding pid_only
  pinkpy_trace_listen args = pid_only args (Trace.listen sys have)

-- `sigkill` is SIGKILL of signal.h.
module _ {K : Type 0} (sys : KillCall → M K ℤ) (have : Have) (nsig sigkill : ℕ) where
  unfoldable pub pinkpy_trace_kill : Option (ℕ × Option ℕ × Option ℕ) → M K Result
  unfolding pink_call_true pink_check_signal
  pinkpy_trace_kill args = parsed args λ (tid, tgid, sig).
      pink_check_signal nsig (get_or sigkill sig)
        (pink_call_true (Trace.kill sys have tid (get_or (2 ^ 32 - 1) tgid) (get_or sigkill sig)))
