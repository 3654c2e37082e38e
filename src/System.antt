-- ===== src/System.antt =====
-- What the library calls and does not implement. The kernel, the C library and the memory behind
-- the pointers that are handed to them are the parameter `K`; `errno` stands beside it.
pub mod Loop
use pinktrace.Prelude.{ℕ, ℤ, List, Bool}

-- The `enum __ptrace_request` values that the code passes on.
pub data Request : Type 0 where
  traceme peekuser peekdata pokeuser pokedata cont singlestep syscall geteventmsg : Request
  getregs setregs getregset setregset getsiginfo setoptions : Request
  sysemu sysemu_singlestep attach detach seize interrupt listen set_syscall : Request

pub record State (K : Type 0) : Type 0 where
  pub errno : ℕ
  pub kernel : K

abbrev pub M : Type 0 → Type 0 → Type 0
M K A = State K → A × State K

infixl 5 ◌>>=◌ ◌>>◌
abbrev pub ◌>>=◌ : {K A B : Type 0} → M K A → (A → M K B) → M K B
◌>>=◌ m f s = f (m s).0 (m s).1

abbrev pub ◌>>◌ : {K A B : Type 0} → M K A → M K B → M K B
◌>>◌ m k s = k (m s).1

abbrev pub pure : {K A : Type 0} → A → M K A
pure a s = (a, s)

abbrev pub get_errno : {K : Type 0} → M K ℕ
get_errno s = (s.errno, s)

abbrev pub set_errno : {K : Type 0} → ℕ → M K (Unit {0})
set_errno e s = (tt, record s { errno = e })

-- ptrace(2): the `long` that it returns is a 64-bit pattern.
abbrev pub PtraceCall : Type 0 → Type 0
PtraceCall K = (req : Request) (pid addr word : ℕ) → M K ℕ

-- process_vm_readv(2) of one range: its result, and the bytes that it stores.
abbrev pub ReadvCall : Type 0 → Type 0
ReadvCall K = (pid addr len : ℕ) → M K (ℤ × List ℕ)

-- process_vm_writev(2) of one range.
abbrev pub WritevCall : Type 0 → Type 0
WritevCall K = (pid addr : ℕ) → List ℕ → M K ℤ

-- The calls that move data, and whether configure found the last two (PINK_HAVE_PROCESS_VM_...).
pub record Calls (K : Type 0) : Type 0 where
  pub ptrace : PtraceCall K
  pub have_readv : Bool
  pub readv : ReadvCall K
  pub have_writev : Bool
  pub writev : WritevCall K

-- The numbers of errno.h that the code tests for or returns.
abbrev pub eperm : ℕ
eperm = 1

abbrev pub eio : ℕ
eio = 5

abbrev pub efault : ℕ
efault = 14

abbrev pub einval : ℕ
einval = 22

abbrev pub enosys : ℕ
enosys = 38
