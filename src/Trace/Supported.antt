-- ===== src/Trace/Supported.antt =====
-- Which functions of pinktrace/trace.c may return -ENOSYS: none where configure found all and the
-- kernel never sets that errno; and what a request that configure did not find gives.
use pinktrace.Prelude.{
  pos, negsuc, is_zero, is_neg, if◌then◌else◌, ℕ, ◌≡◌, ◌≢◌, arith, refl, Bool, true, false, Option,
  none, some, neg, ℤ,
}
use pinktrace.System.{Request, State, M, PtraceCall, enosys}
use pinktrace.Trace.{
  Have, TraceOption, KillCall, ptrace, call, call_if, me, resume, singlestep, syscall, geteventmsg,
  setup, set_options, sysemu, sysemu_singlestep, attach, detach, seize, interrupt, listen, kill,
  or_errno, or_errno_nonzero, all_options, collect,
}

-- What configure found: everything.
pub record HasAll (have : Have) : Type 0 where
  pub geteventmsg : have.geteventmsg ≡ true
  pub setup : have.setup ≡ true
  pub sysemu : have.sysemu ≡ true
  pub seize : have.seize ≡ true
  pub interrupt : have.interrupt ≡ true
  pub listen : have.listen ≡ true

-- A function of a process, and one of a process and a number, that never returns -ENOSYS.
abbrev pub Supported : {K : Type 0} → M K ℤ → Type 0
Supported {K} m = (s : State K) → (m s).0 ≢ neg enosys

module _ {K : Type 0} (sys : PtraceCall K)
    (never : (req : Request) (pid addr word : ℕ) (s : State K)
      → s.errno ≢ enosys
      → (sys req pid addr word s).1.errno ≢ enosys) where
  call-Supported : (req : Request) (pid addr word : ℕ) → Supported (call sys req pid addr word)
  unfolding call ptrace
  call-Supported req pid addr word s =
      ground (arith, never req pid addr word (record s { errno = 0 }) (omega arith))

  call_if-Supported :
      (have : Bool) (req : Request) (pid addr word : ℕ)
      → have ≡ true
      → Supported (call_if sys have req pid addr word)
  unfolding call_if
  call_if-Supported have req pid addr word there s = rw there (call-Supported req pid addr word s)

  pub me-Supported : Supported (me sys)
  unfolding me
  me-Supported = call-Supported Request.traceme 0 0 0

  pub resume-Supported : (pid sig : ℕ) → Supported (resume sys pid sig)
  unfolding resume
  resume-Supported pid sig = call-Supported _ _ _ _

  pub singlestep-Supported : (pid sig : ℕ) → Supported (singlestep sys pid sig)
  unfolding singlestep
  singlestep-Supported pid sig = call-Supported _ _ _ _

  pub syscall-Supported : (pid sig : ℕ) → Supported (syscall sys pid sig)
  unfolding syscall
  syscall-Supported pid sig = call-Supported _ _ _ _

  pub attach-Supported : (pid : ℕ) → Supported (attach sys pid)
  unfolding attach
  attach-Supported pid = call-Supported _ _ _ _

  pub detach-Supported : (pid sig : ℕ) → Supported (detach sys pid sig)
  unfolding detach
  detach-Supported pid sig = call-Supported _ _ _ _

  module _ (have : Have) (all : HasAll have) where
    pub geteventmsg-Supported : (pid message : ℕ) → Supported (geteventmsg sys have pid message)
    unfolding geteventmsg
    geteventmsg-Supported pid message = call_if-Supported _ _ _ _ _ all.geteventmsg

    pub sysemu-Supported : (pid sig : ℕ) → Supported (sysemu sys have pid sig)
    unfolding sysemu
    sysemu-Supported pid sig = call_if-Supported _ _ _ _ _ all.sysemu

    pub sysemu_singlestep-Supported : (pid sig : ℕ) → Supported (sysemu_singlestep sys have pid sig)
    unfolding sysemu_singlestep
    sysemu_singlestep-Supported pid sig = call_if-Supported _ _ _ _ _ all.sysemu

    pub seize-Supported : (pid options : ℕ) → Supported (seize sys have pid options)
    unfolding seize
    seize-Supported pid options = call_if-Supported _ _ _ _ _ all.seize

    pub interrupt-Supported : (pid : ℕ) → Supported (interrupt sys have pid)
    unfolding interrupt
    interrupt-Supported pid = call_if-Supported _ _ _ _ _ all.interrupt

    pub listen-Supported : (pid : ℕ) → Supported (listen sys have pid)
    unfolding listen
    listen-Supported pid = call_if-Supported _ _ _ _ _ all.listen

    set_options-Supported : (pid : ℕ) (options : Option ℕ) → Supported (set_options sys pid options)
    unfolding set_options
    set_options-Supported pid none s = λ h. ground (arith, h)
    set_options-Supported pid (some o) s = call-Supported _ _ _ _ s

    pub setup-Supported :
        (have_option : TraceOption → Bool) (flag : TraceOption → ℕ) (pid options : ℕ)
        → Supported (setup sys have have_option flag pid options)
    unfolding setup
    setup-Supported have_option flag pid options s =
        rw all.setup (set_options-Supported pid (collect all_options have_option flag options 0) s)

module _ {K : Type 0} (sys : KillCall → M K ℤ)
    (never : (c : KillCall) (s : State K)
      → is_zero (sys c s).0 ≡ false
      → (sys c s).1.errno ≢ enosys) where
  or_errno-Supported : (c : KillCall) → Supported (or_errno sys c)
  unfolding or_errno
  or_errno-Supported c s = go (sys c s).0 (sys c s).1 (never c s)
    where
      go :
          (r : ℤ) (t : State K)
          → (is_zero r ≡ false → t.errno ≢ enosys)
          → (if is_neg r then neg t.errno else pos 0) ≢ neg enosys
      go (pos n) t h e = ground (arith, e)
      go (negsuc n) t h e = h refl (ground (arith, e))

  or_errno_nonzero-Supported : (c : KillCall) → Supported (or_errno_nonzero sys c)
  unfolding or_errno_nonzero
  or_errno_nonzero-Supported c s = ground (arith, never c s)

  pub kill-Supported : (have : Have) (tid tgid sig : ℕ) → Supported (kill sys have tid tgid sig)
  unfolding kill
  kill-Supported have tid tgid sig s = ground (
    arith,
    or_errno-Supported (KillCall.tkill tid sig) s,
    or_errno_nonzero-Supported (KillCall.tgkill tgid tid sig) s,
    or_errno-Supported (KillCall.kill_process tid sig) s,
  )

-- Requests that configure did not find.
module _ {K : Type 0} (sys : PtraceCall K) (have : Have) (pid : ℕ) (s : State K) where
  pub geteventmsg-unsupported :
      (message : ℕ) → have.geteventmsg ≡ false → (geteventmsg sys have pid message s).0 ≡ neg enosys
  unfolding geteventmsg call_if
  geteventmsg-unsupported message h = rw h refl

  pub setup-unsupported :
      (have_option : TraceOption → Bool) (flag : TraceOption → ℕ) (options : ℕ)
      → have.setup ≡ false
      → (setup sys have have_option flag pid options s).0 ≡ neg enosys
  unfolding setup
  setup-unsupported have_option flag options h = rw h refl

  pub sysemu-unsupported :
      (sig : ℕ) → have.sysemu ≡ false → (sysemu sys have pid sig s).0 ≡ neg enosys
  unfolding sysemu call_if
  sysemu-unsupported sig h = rw h refl

  pub sysemu_singlestep-unsupported :
      (sig : ℕ) → have.sysemu ≡ false → (sysemu_singlestep sys have pid sig s).0 ≡ neg enosys
  unfolding sysemu_singlestep call_if
  sysemu_singlestep-unsupported sig h = rw h refl

  pub seize-unsupported :
      (options : ℕ) → have.seize ≡ false → (seize sys have pid options s).0 ≡ neg enosys
  unfolding seize call_if
  seize-unsupported options h = rw h refl

  pub interrupt-unsupported : have.interrupt ≡ false → (interrupt sys have pid s).0 ≡ neg enosys
  unfolding interrupt call_if
  interrupt-unsupported h = rw h refl

  pub listen-unsupported : have.listen ≡ false → (listen sys have pid s).0 ≡ neg enosys
  unfolding listen call_if
  listen-unsupported h = rw h refl
