-- ===== src/Regset.antt =====
-- struct pink_regset of pinktrace/private.h and pinktrace/regset.c, in a build for x86-64. The
-- union of the two register structures is an array of 32-bit words, which both overlay.
pub mod Convert
mod Tests
use Prim.Native.Nat.{max}
use pinktrace.Prelude.{
  Option, none, some, neg, ℕ, ◌+◌, ◌*◌, ◌/◌, ◌%◌, ◌^◌, Bool, true, false, List, [], ◌∷◌, ◌==◌,
  if◌then◌else◌, ℤ, pos, is_neg, u32,
}
use pinktrace.System.{get_errno, State, M, ◌>>=◌, pure, PtraceCall}
use pinktrace.Trace.{Have, get_regset, get_regs}
use pinktrace.Abi.{abi_x86_64, abi_i386, abi_x32}

-- The fields of struct user_regs_struct (sys/user.h) that the code names.
pub data Reg : Type 0 where
  rbx rcx rdx rsi rdi rbp rax r8 r9 r10 orig_rax rip rsp cs : Reg

-- The place in 32-bit words of a field of struct user_regs_struct, and the size of that structure
-- in bytes: both are of sys/user.h.
pub record Layout : Type 0 where
  pub word : Reg → ℕ
  pub size : ℕ

-- The places of struct i386_user_regs_struct, which has 17 fields of 4 bytes.
pub data Reg32 : Type 0 where
  ebx ecx edx esi edi ebp eax orig_eax eip esp : Reg32

unfoldable pub place : Reg32 → ℕ
place ebx = 0
place ecx = 1
place edx = 2
place esi = 3
place edi = 4
place ebp = 5
place eax = 6
place orig_eax = 11
place eip = 12
place esp = 15

abbrev pub i386_size : ℕ
i386_size = 68

-- struct pink_regset: the words of the union, x86_io.iov_len and the ABI.
pub record Regset : Type 0 where
  pub words : ℕ → ℕ
  pub iov_len : ℕ
  pub abi : ℕ

-- x86_64_regs.f and i386_regs.f
unfoldable pub reg64 : Layout → (ℕ → ℕ) → Reg → ℕ
reg64 l words r = words (l.word r) + 2 ^ 32 * words (l.word r + 1)

unfoldable pub reg32 : (ℕ → ℕ) → Reg32 → ℕ
unfolding place
reg32 words r = words (place r)

-- __X32_SYSCALL_BIT
abbrev pub x32_syscall_bit : ℕ
x32_syscall_bit = 0x40000000

-- i386_regs.d = x86_64_regs.r, which stores the low half.
pub assign : Layout → Reg32 → Reg → (ℕ → ℕ) → ℕ → ℕ
unfolding place reg64
assign l d r words j = if j == place d then u32 (reg64 l words r) else words j

pub assign_all : Layout → List (Reg32 × Reg) → (ℕ → ℕ) → ℕ → ℕ
assign_all l [] words = words
assign_all l ((d, r) ∷ rest) words = assign_all l rest (assign l d r words)

-- The assignments of pink_regset_fill, in their order.
abbrev pub conversions : List (Reg32 × Reg)
conversions =
    (ebx, rbx)
    ∷ (ecx, rcx)
    ∷ (edx, rdx)
    ∷ (esi, rsi)
    ∷ (edi, rdi)
    ∷ (ebp, rbp)
    ∷ (eax, rax)
    ∷ (orig_eax, orig_rax)
    ∷ (eip, rip)
    ∷ (esp, rsp)
    ∷ []

-- What PTRACE_GETREGS gave, with 32-bit processes told by their code segment.
pub from_regs : Layout → (ℕ → ℕ) → Regset → Regset
from_regs l words r =
    if reg64 l words cs == 0x23
    then record r { words = assign_all l conversions words; iov_len = i386_size }
    else record r { words = words; iov_len = l.size }

-- orig_rax & __X32_SYSCALL_BIT
pub has_x32_bit : ℕ → Bool
has_x32_bit x = x / x32_syscall_bit % 2 == 1

pub choose_abi : Layout → Regset → Regset
choose_abi l r =
    if r.iov_len == i386_size
    then record r { abi = abi_i386 }
    else if has_x32_bit (reg64 l r.words orig_rax)
    then record r { abi = abi_x32 }
    else record r { abi = abi_x86_64 }

-- pink_regset_zero
pub zeroed : Regset
zeroed = record { words = λ i. 0; iov_len = 0; abi = 0 }

-- pink_regset_alloc: `malloc` says whether there was memory.
pub alloc : {K : Type 0} → (malloc : M K Bool) → M K (ℤ × Option Regset)
unfolding zeroed
alloc malloc = do
  there ← malloc
  e ← get_errno
  pure (if there then (pos 0, some zeroed) else (neg e, none))

-- Where pinktrace hands a block of its own memory to ptrace(2), the block is part of the kernel's
-- state: `words_at` and `length_at` are what stands behind a pointer to a register structure and
-- in iov_len behind a pointer to a struct iovec, and `set_io` fills such a struct.
pub record Blocks (K : Type 0) : Type 0 where
  pub words_at : K → ℕ → ℕ → ℕ
  pub length_at : K → ℕ → ℕ
  pub set_io : (io base len : ℕ) → K → K

module _ {K : Type 0} (sys : PtraceCall K) (blocks : Blocks K) (l : Layout) where
  pub finish : Regset → ℤ × State K → (ℤ × Regset) × State K
  finish r (status, t) = if is_neg status then ((status, r), t) else ((pos 0, choose_abi l r), t)

  -- `regs` is the address of the union, `io` that of x86_io and `nt_prstatus` the note type; `have`
  -- says which of PTRACE_GETREGSET and PTRACE_GETREGS there is.
  unfoldable pub fill : Have → (pid regs io nt_prstatus : ℕ) → Regset → M K (ℤ × Regset)
  fill have pid regs io nt_prstatus r s =
      if have.getregset
      then (let s' = record s { kernel = blocks.set_io io regs (max l.size i386_size) s.kernel } in
          let (status, t) = get_regset sys have pid io nt_prstatus s' in
          finish
            (record r {
              words = blocks.words_at t.kernel regs;
              iov_len = blocks.length_at t.kernel io;
            })
            (status, t))
      else (let (status, t) = get_regs sys have pid regs s in
          if is_neg status
          then ((status, record r { words = blocks.words_at t.kernel regs; iov_len = l.size }), t)
          else ((pos 0, choose_abi l (from_regs l (blocks.words_at t.kernel regs) r)), t))
