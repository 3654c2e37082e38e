-- ===== src/Strace/Main.antt =====
-- main of examples/pink-simple-strace.c before its loop.
use pinktrace.Prelude.{
  ℕ, ltb, get_or, Bool, false, if◌then◌else◌, ℤ, pos, negsuc, is_neg, pos_part, is_zero,
}
use pinktrace.System.{M}
use pinktrace.System.Loop.{D, ◌>>=◌, ◌>>◌, ret, lift}
use pinktrace.Trace
use pinktrace.Regset
use pinktrace.Regset.{Regset}
use pinktrace.Strace.{Host}
use pinktrace.Strace.Decode.{complain}
use pinktrace.Strace.Loop.{parent}

-- The calls of main that the loop does not make. `stop` is kill(getpid(), SIGSTOP), and `execvp` is
-- `none` where it does not return.
pub record Start (K : Type 0) : Type 0 where
  pub usage : M K (Unit {0})
  pub malloc : M K Bool
  pub fork : M K ℤ
  pub stop : M K ℤ
  pub execvp : D K (Unit {0})

module _ {K : Type 0} (host : Host K) (start : Start K) where
  -- The child of fork(2); the result is that of _exit(2).
  pub child : D K ℤ
  child = do
    r ← lift (Trace.me host.sys.ptrace)
    if is_neg r
        then (do lift (complain host r "pink_trace_me"); ret (pos 1))
        else (do lift start.stop; start.execvp; lift (host.perror "execvp"); ret (negsuc 0))

  module _ (fuel : ℕ) (flag : Trace.TraceOption → ℕ) (have_option : Trace.TraceOption → Bool) where
    -- From fork(2) on; what struct process has not been given yet is 0.
    spawn : Regset → (rounds : ℕ) → D K ℤ
    unfolding child
    spawn regs rounds = do
      pid ← lift start.fork
      if is_neg pid
          then (do lift (host.perror "fork"); ret (pos 1))
          else if is_zero pid
          then child
          else parent host fuel flag have_option rounds
              (record { pid = pos_part pid; abi = 0; insyscall = false; regs = regs })

    pub main : (argc : ℕ) → (rounds : ℕ) → D K ℤ
    unfolding spawn
    main argc rounds = if ltb argc 2 then (do lift start.usage; ret (pos 1)) else (do
      (r, regs) ← lift (Regset.alloc start.malloc)
      if is_neg r
          then (do lift (complain host r "pink_regset_alloc"); ret (pos 1))
          else spawn (get_or Regset.zeroed regs) rounds)
