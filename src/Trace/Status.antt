-- ===== src/Trace/Status.antt =====
-- What the wrapper of ptrace(2) in pinktrace/trace.c reports, for every kernel.
use pinktrace.Prelude.{
  inl, sext32, ℕ, suc, ◌≡◌, ◌≢◌, ◌⊎◌, arith, true, Bool, Option, none, some, ℤ, pos, neg, negsuc,
  ◌==◌, if◌then◌else◌,
}
use pinktrace.System.{Request, State, PtraceCall, eio}
use pinktrace.Trace.{Have, minus_one, ptrace, call, call_if, get_regset, set_regset}

-- The result is 0, or the negation of the errno that is left behind, which is not EIO.
abbrev pub Reports : {K : Type 0} → (ℤ × Option ℕ) × State K → Type 0
Reports r =
    (r.0.0 ≡ pos 0)
    ⊎ ((r.0.0 ≡ neg r.1.errno) × (r.1.errno ≢ 0) × (r.1.errno ≢ eio) × (r.0.1 ≡ none))

-- One less than the errno that is reported where the kernel set `suc e`.
abbrev pub folded : ℕ → ℕ
folded e = if suc e == eio then 13 else e

module _ {K : Type 0} (sys : PtraceCall K) (req : Request) (pid addr word : ℕ) where
  -- Whatever the kernel does, pink_ptrace returns 0, or it returns a negated errno other than
  -- -EIO, leaves that number in errno and stores nothing.
  pub ptrace-Reports :
      (retval : Bool) (s : State K) → Reports (ptrace sys req pid addr word retval s)
  unfolding ptrace
  ptrace-Reports retval s = ground arith

  -- A kernel call that returns another value than -1, or that leaves errno at 0, is a success,
  -- whatever the value: it is stored and nothing else changes.
  pub ptrace_stores :
      (s t : State K) (v : ℕ)
      → sys req pid addr word (record s { errno = 0 }) ≡ (v, t)
      → (v ≢ minus_one) ⊎ (t.errno ≡ 0)
      → ptrace sys req pid addr word true s ≡ ((pos 0, some v), t)
  unfolding ptrace
  ptrace_stores s t v h ok = rw h (ground arith)

  -- A call that fails with `suc e` in errno is reported, EIO as EFAULT.
  pub ptrace_fails :
      (s t : State K) (e : ℕ) (retval : Bool)
      → sys req pid addr word (record s { errno = 0 }) ≡ (minus_one, record t { errno = suc e })
      → ptrace sys req pid addr word retval s
        ≡ ((negsuc (folded e), none), record t { errno = suc (folded e) })
  unfolding ptrace
  ptrace_fails s t e retval h = rw h (ground arith)

  pub call_fails :
      (s t : State K) (e : ℕ)
      → sys req pid addr word (record s { errno = 0 }) ≡ (minus_one, record t { errno = suc e })
      → call sys req pid addr word s ≡ (negsuc (folded e), record t { errno = suc (folded e) })
  unfolding ptrace call
  call_fails s t e h = rw h (ground arith)

  pub call_succeeds :
      (s t : State K) (v : ℕ)
      → sys req pid addr word (record s { errno = 0 }) ≡ (v, t)
      → (v ≢ minus_one) ⊎ (t.errno ≡ 0)
      → call sys req pid addr word s ≡ (pos 0, t)
  unfolding ptrace call
  call_succeeds s t v h ok = rw h (ground arith)

-- The two calls that move a register set, where configure found them.
module _ {K : Type 0} (sys : PtraceCall K) (have : Have) (pid regset n_type : ℕ)
    (s t : State K) where
  pub get_regset_succeeds :
      have.getregset ≡ true
      → sys Request.getregset pid (sext32 n_type) regset (record s { errno = 0 }) ≡ (0, t)
      → get_regset sys have pid regset n_type s ≡ (pos 0, t)
  unfolding get_regset call_if
  get_regset_succeeds there h =
      rw there
        (call_succeeds sys Request.getregset pid (sext32 n_type) regset s t 0 h (inl (omega arith)))

  pub set_regset_succeeds :
      have.setregset ≡ true
      → sys Request.setregset pid (sext32 n_type) regset (record s { errno = 0 }) ≡ (0, t)
      → set_regset sys have pid regset n_type s ≡ (pos 0, t)
  unfolding set_regset call_if
  set_regset_succeeds there h =
      rw there
        (call_succeeds sys Request.setregset pid (sext32 n_type) regset s t 0 h (inl (omega arith)))
