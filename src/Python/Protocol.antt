-- ===== src/Python/Protocol.antt =====
-- The protocol between CPython and the functions of the module trace (python/pinktrace/py-trace.c):
-- a function returns NULL if and only if it has set an exception.
use pinktrace.Prelude.{
  ℕ, suc, ◌-◌, ◌^◌, ◌≡◌, ◌≢◌, refl, arith, ap, inl, inr, Bool, true, false, Bool-cases, Option,
  none, some, is_zero, not, ◌==◌, ℤ, pos, negsuc, neg, get_or,
}
use pinktrace.System.{State, M, PtraceCall, Request, enosys}
use pinktrace.Trace.{Have, TraceOption, KillCall, call, is_positive, all_options, collect}
use pinktrace.Trace
use pinktrace.Trace.Supported.{
  HasAll, Supported, me-Supported, resume-Supported, singlestep-Supported, syscall-Supported,
  attach-Supported, detach-Supported, geteventmsg-Supported, sysemu-Supported,
  sysemu_singlestep-Supported, geteventmsg-unsupported, setup-unsupported, seize-Supported,
  interrupt-Supported, listen-Supported, setup-Supported, kill-Supported, sysemu-unsupported,
  sysemu_singlestep-unsupported, seize-unsupported, interrupt-unsupported, listen-unsupported,
}
use pinktrace.Python.{
  PyObject, py_true, py_int, Result, system_error, pink_call, pink_call_true, pink_check_signal,
  is_no_signal,
}
use pinktrace.Python.Trace.{
  PidSig, pid_sig, pid_only, pinkpy_trace_me, pinkpy_trace_resume, pinkpy_trace_singlestep,
  pinkpy_trace_syscall, pinkpy_trace_geteventmsg, pinkpy_trace_setup, pinkpy_trace_sysemu,
  pinkpy_trace_sysemu_singlestep, pinkpy_trace_attach, pinkpy_trace_detach, pinkpy_trace_seize,
  pinkpy_trace_interrupt, pinkpy_trace_listen, pinkpy_trace_kill,
}

abbrev pub is_null : Option PyObject → Bool
is_null none = true
is_null (some v) = false

abbrev pub Obeys : Result → Type 0
Obeys (v, none) = is_null v ≡ false
Obeys (v, some e) = is_null v ≡ true

pink_call-Obeys :
    {K : Type 0} (m : M K ℤ) (rest : M K PyObject) (s : State K)
    → (m s).0 ≢ neg enosys
    → Obeys (pink_call m rest s).0
unfolding pink_call
pink_call-Obeys {K = K} m rest s h = go (m s).0 (m s).1 h
  where
    go : (r : ℤ) (t : State K) → r ≢ neg enosys → Obeys (pink_call (λ s. (r, t)) rest s).0
    go (pos n) t h = refl
    go (negsuc n) t h = elim (Bool-cases (suc n == enosys)) [
      | inl e ↦ absurd (h (ap negsuc (ground arith)))
      | inr e ↦ rw e refl
    ]

pink_call-enosys :
    {K : Type 0} (m : M K ℤ) (s : State K)
    → (m s).0 ≡ neg enosys
    → (pink_call_true m s).0 ≡ (some py_true, some system_error)
unfolding pink_call_true pink_call
pink_call-enosys m s h = rw h refl

pink_call_true-Obeys :
    {K : Type 0} (m : M K ℤ) (s : State K) → Supported m → Obeys (pink_call_true m s).0
unfolding pink_call_true
pink_call_true-Obeys m s h = pink_call-Obeys m (λ s. (py_true, s)) s (h s)

pid_sig-Obeys :
    {K : Type 0} (nsig : ℕ) (args : PidSig) (f : ℕ → ℕ → M K ℤ) (s : State K)
    → ((pid sig : ℕ) → Supported (f pid sig))
    → Obeys (pid_sig nsig args f s).0
unfolding pid_sig pink_check_signal
pid_sig-Obeys nsig none f s h = refl
pid_sig-Obeys nsig (some (pid, sig)) f s h = elim (Bool-cases (is_no_signal nsig (get_or 0 sig))) [
  | inl e ↦ rw e refl
  | inr e ↦ rw e (pink_call_true-Obeys (f pid (get_or 0 sig)) s (h pid (get_or 0 sig)))
]

pid_only-Obeys :
    {K : Type 0} (args : Option ℕ) (f : ℕ → M K ℤ) (s : State K)
    → ((pid : ℕ) → Supported (f pid))
    → Obeys (pid_only args f s).0
unfolding pid_only
pid_only-Obeys none f s h = refl
pid_only-Obeys (some pid) f s h = pink_call_true-Obeys (f pid) s (h pid)

-- A call from Python, with the arguments as PyArg_ParseTuple has them.
pub data PyCall : Type 0 where
  me : PyCall
  resume singlestep syscall sysemu sysemu_singlestep detach seize : PidSig → PyCall
  attach interrupt listen : Option ℕ → PyCall
  geteventmsg : (data_address : ℕ) → Option ℕ → PyCall
  setup : Option (ℕ × ℕ) → PyCall
  kill : Option (ℕ × Option ℕ × Option ℕ) → PyCall

-- The request of the function was not found by configure.
abbrev pub is_missing : Have → PyCall → Bool
is_missing have (geteventmsg data_address args) = not have.geteventmsg
is_missing have (setup args) = not have.setup
is_missing have (sysemu args) = not have.sysemu
is_missing have (sysemu_singlestep args) = not have.sysemu
is_missing have (seize args) = not have.seize
is_missing have (interrupt args) = not have.interrupt
is_missing have (listen args) = not have.listen
is_missing have _ = false

abbrev pub is_parsed : {A : Type 0} → Option A → Bool
is_parsed none = false
is_parsed (some a) = true

abbrev pub is_signal : (nsig : ℕ) → PidSig → Bool
is_signal nsig none = false
is_signal nsig (some (pid, sig)) = not (is_no_signal nsig (get_or 0 sig))

-- The arguments of such a function are parsed, and its signal is one.
abbrev pub is_accepted : (nsig : ℕ) → PyCall → Bool
is_accepted nsig (sysemu args) = is_signal nsig args
is_accepted nsig (sysemu_singlestep args) = is_signal nsig args
is_accepted nsig (seize args) = is_signal nsig args
is_accepted nsig (interrupt args) = is_parsed args
is_accepted nsig (listen args) = is_parsed args
is_accepted nsig (geteventmsg data_address args) = is_parsed args
is_accepted nsig (setup args) = is_parsed args
is_accepted nsig _ = false

of_not : {b : Bool} → not b ≡ true → b ≡ false
of_not {b = b} h = ground (arith, h)

module _ {K : Type 0} (sys : PtraceCall K) (kill_sys : KillCall → M K ℤ) (have : Have)
    (nsig sigkill : ℕ) (long_at : K → ℕ → ℕ) (have_option : TraceOption → Bool)
    (flag : TraceOption → ℕ) where
  abbrev pub run : PyCall → M K Result
  run me = pinkpy_trace_me sys have nsig
  run (resume args) = pinkpy_trace_resume sys have nsig args
  run (singlestep args) = pinkpy_trace_singlestep sys have nsig args
  run (syscall args) = pinkpy_trace_syscall sys have nsig args
  run (sysemu args) = pinkpy_trace_sysemu sys have nsig args
  run (sysemu_singlestep args) = pinkpy_trace_sysemu_singlestep sys have nsig args
  run (detach args) = pinkpy_trace_detach sys have nsig args
  run (seize args) = pinkpy_trace_seize sys have nsig args
  run (attach args) = pinkpy_trace_attach sys have nsig args
  run (interrupt args) = pinkpy_trace_interrupt sys have nsig args
  run (listen args) = pinkpy_trace_listen sys have nsig args
  run (geteventmsg data_address args) =
      pinkpy_trace_geteventmsg sys have nsig long_at data_address args
  run (setup args) = pinkpy_trace_setup sys have nsig have_option flag args
  run (kill args) = pinkpy_trace_kill kill_sys have nsig sigkill args

  -- Where configure found every request, ptrace(2) never sets errno to ENOSYS, and the kill calls never fail
  -- with it, each function of the module trace returns NULL if and only if it has set an exception, whatever
  -- its arguments are and whatever else the kernel does.
  pub run-Obeys :
      (c : PyCall) (s : State K)
      → HasAll have
      → ((req : Request) (pid addr word : ℕ) (s : State K)
          → s.errno ≢ enosys
          → (sys req pid addr word s).1.errno ≢ enosys)
      → ((c : KillCall) (s : State K)
          → is_zero (kill_sys c s).0 ≡ false
          → (kill_sys c s).1.errno ≢ enosys)
      → Obeys (run c s).0
  unfolding pinkpy_trace_me pinkpy_trace_resume pinkpy_trace_singlestep pinkpy_trace_syscall
      pinkpy_trace_geteventmsg pinkpy_trace_setup pinkpy_trace_sysemu pinkpy_trace_sysemu_singlestep
      pinkpy_trace_attach pinkpy_trace_detach pinkpy_trace_seize pinkpy_trace_interrupt
      pinkpy_trace_listen pinkpy_trace_kill pink_call_true pink_check_signal
  run-Obeys me s all never kills = pink_call_true-Obeys (Trace.me sys) s (me-Supported sys never)
  run-Obeys (resume args) s all never kills =
      pid_sig-Obeys nsig args (Trace.resume sys) s (resume-Supported sys never)
  run-Obeys (singlestep args) s all never kills =
      pid_sig-Obeys nsig args (Trace.singlestep sys) s (singlestep-Supported sys never)
  run-Obeys (syscall args) s all never kills =
      pid_sig-Obeys nsig args (Trace.syscall sys) s (syscall-Supported sys never)
  run-Obeys (sysemu args) s all never kills =
      pid_sig-Obeys nsig args (Trace.sysemu sys have) s (sysemu-Supported sys never have all)
  run-Obeys (sysemu_singlestep args) s all never kills =
      pid_sig-Obeys nsig args (Trace.sysemu_singlestep sys have) s
        (sysemu_singlestep-Supported sys never have all)
  run-Obeys (detach args) s all never kills =
      pid_sig-Obeys nsig args (Trace.detach sys) s (detach-Supported sys never)
  run-Obeys (seize args) s all never kills =
      pid_sig-Obeys nsig args (Trace.seize sys have) s (seize-Supported sys never have all)
  run-Obeys (attach args) s all never kills =
      pid_only-Obeys args (Trace.attach sys) s (attach-Supported sys never)
  run-Obeys (interrupt args) s all never kills =
      pid_only-Obeys args (Trace.interrupt sys have) s (interrupt-Supported sys never have all)
  run-Obeys (listen args) s all never kills =
      pid_only-Obeys args (Trace.listen sys have) s (listen-Supported sys never have all)
  run-Obeys (geteventmsg data_address none) s all never kills = refl
  run-Obeys (geteventmsg data_address (some pid)) s all never kills =
      pink_call-Obeys (Trace.geteventmsg sys have pid data_address)
        (λ s. (py_int (pos (long_at s.kernel data_address)), s)) s
        (geteventmsg-Supported sys never have all pid data_address s)
  run-Obeys (setup none) s all never kills = refl
  run-Obeys (setup (some (pid, options))) s all never kills =
      pink_call_true-Obeys (Trace.setup sys have have_option flag pid options) s
        (setup-Supported sys never have all have_option flag pid options)
  run-Obeys (kill none) s all never kills = refl
  run-Obeys (kill (some (tid, tgid, sig))) s all never kills =
      elim (Bool-cases (is_no_signal nsig (get_or sigkill sig))) [
        | inl e ↦ rw e refl
        | inr e ↦ rw e (
            pink_call_true-Obeys
              (Trace.kill kill_sys have tid (get_or (2 ^ 32 - 1) tgid) (get_or sigkill sig)) s
              (kill-Supported kill_sys kills have tid (get_or (2 ^ 32 - 1) tgid)
                (get_or sigkill sig)))
      ]

  -- Where configure did not find the request of a function of the module trace, be it the only one that
  -- is missing, the function returns an object although it has set SystemError, for all arguments
  -- that are parsed and every valid signal: PINK_CALL does not return there.
  pub run-unsupported :
      (c : PyCall) (s : State K)
      → is_missing have c ≡ true
      → is_accepted nsig c ≡ true
      → (v : PyObject) × ((run c s).0 ≡ (some v, some system_error))
  unfolding pinkpy_trace_sysemu pinkpy_trace_sysemu_singlestep pinkpy_trace_seize
      pinkpy_trace_interrupt pinkpy_trace_listen pinkpy_trace_geteventmsg pinkpy_trace_setup pid_sig
      pid_only pink_call pink_call_true pink_check_signal
  run-unsupported (sysemu (some (pid, sig))) s gone valid =
      let e = sysemu-unsupported sys have pid s (get_or 0 sig) (of_not gone) in
      (py_true, rw (of_not valid) (pink_call-enosys (Trace.sysemu sys have pid (get_or 0 sig)) s e))
  run-unsupported (sysemu_singlestep (some (pid, sig))) s gone valid =
      let e = sysemu_singlestep-unsupported sys have pid s (get_or 0 sig) (of_not gone) in
      (
        py_true,
        rw (of_not valid)
            (pink_call-enosys (Trace.sysemu_singlestep sys have pid (get_or 0 sig)) s e),
      )
  run-unsupported (seize (some (pid, sig))) s gone valid =
      let e = seize-unsupported sys have pid s (get_or 0 sig) (of_not gone) in
      (py_true, rw (of_not valid) (pink_call-enosys (Trace.seize sys have pid (get_or 0 sig)) s e))
  run-unsupported (interrupt (some pid)) s gone valid = (
    py_true,
    pink_call-enosys (Trace.interrupt sys have pid) s
        (interrupt-unsupported sys have pid s (of_not gone)),
  )
  run-unsupported (listen (some pid)) s gone valid = (
    py_true,
    pink_call-enosys (Trace.listen sys have pid) s
        (listen-unsupported sys have pid s (of_not gone)),
  )
  run-unsupported (setup (some (pid, options))) s gone valid = (
    py_true,
    pink_call-enosys (Trace.setup sys have have_option flag pid options) s
        (setup-unsupported sys have pid s have_option flag options (of_not gone)),
  )
  run-unsupported (geteventmsg data_address (some pid)) s gone valid = (
    py_int (pos (long_at (Trace.geteventmsg sys have pid data_address s).1.kernel data_address)),
    rw (geteventmsg-unsupported sys have pid s data_address (of_not gone)) refl,
  )
  run-unsupported me s gone valid = cc
  run-unsupported (resume args) s gone valid = cc
  run-unsupported (singlestep args) s gone valid = cc
  run-unsupported (syscall args) s gone valid = cc
  run-unsupported (detach args) s gone valid = cc
  run-unsupported (attach args) s gone valid = cc
  run-unsupported (kill args) s gone valid = cc
  run-unsupported (sysemu none) s gone valid = cc
  run-unsupported (sysemu_singlestep none) s gone valid = cc
  run-unsupported (seize none) s gone valid = cc
  run-unsupported (interrupt none) s gone valid = cc
  run-unsupported (listen none) s gone valid = cc
  run-unsupported (setup none) s gone valid = cc
  run-unsupported (geteventmsg data_address none) s gone valid = cc
