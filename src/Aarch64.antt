-- ===== src/Aarch64.antt =====
-- The branches of pinktrace/regset.c, pinktrace/read.c and pinktrace/write.c for AArch64. The union
-- of the two register structures is an array of 32-bit words, which both overlay.
pub mod Words
pub mod Stored
pub mod Registers
mod Tests
use Prim.Native.Nat.{max}
use pinktrace.Prelude.{
  ℕ, ◌+◌, ◌-◌, ◌*◌, ◌/◌, ◌%◌, ◌^◌, Bool, true, false, ◌||◌, Option, none, some, List, ◌==◌,
  if◌then◌else◌, leb, ℤ, pos, neg, is_neg, u32, u64, neg64, sext32,
}
use pinktrace.System.{State, M, pure, PtraceCall, einval, enosys}
use pinktrace.System.Loop.{D, ◌>>=◌, ret, lift}
use pinktrace.Trace.{Have, get_regset, set_regset}
use pinktrace.Abi.{Arch}
use pinktrace.Regset.{Regset, Blocks}
use pinktrace.Word.{write_word_user}
use pinktrace.Read.{max_args, is_negated_errno}

-- PINK_ABI_AARCH64 and PINK_ABI_ARM
abbrev pub abi_aarch64 : ℕ
abi_aarch64 = 0

abbrev pub abi_arm : ℕ
abi_arm = 1

-- sizeof(struct arm_pt_regs). That of struct user_pt_regs (asm/ptrace.h), which begins with the
-- numbered registers, is an argument.
abbrev pub arm_size : ℕ
arm_size = 72

-- aarch64_r.regs[i], as a `long`.
unfoldable pub reg64 : (ℕ → ℕ) → (i : ℕ) → ℕ
reg64 words i = words (2 * i) + 2 ^ 32 * words (2 * i + 1)

-- arm_r.uregs[i]
abbrev pub reg32 : (ℕ → ℕ) → (i : ℕ) → ℕ
reg32 words i = words i

unfoldable pub set_reg64 : (ℕ → ℕ) → (i v : ℕ) → ℕ → ℕ
set_reg64 words i v j =
    if j == 2 * i then u32 v else if j == 2 * i + 1 then u64 v / 2 ^ 32 else words j

unfoldable pub set_reg32 : (ℕ → ℕ) → (i v : ℕ) → ℕ → ℕ
set_reg32 words i v j = if j == i then u32 v else words j

-- The switch on iov_len: `none` for the abort().
pub choose_abi : (size iov_len : ℕ) → Option ℕ
choose_abi size iov_len =
    if iov_len == size then some abi_aarch64 else if iov_len == arm_size then some abi_arm else none

pub syscall : Regset → ℤ × Option ℕ
syscall r =
    if r.abi == abi_aarch64
    then (pos 0, some (reg64 r.words 8))
    else if r.abi == abi_arm
    then (pos 0, some (reg32 r.words 7))
    else (neg einval, none)

-- The return value, and the error as an `int`; `none` for an abort().
pub retval : (nerrnos : List ℕ) → Regset → Option (ℕ × ℕ)
retval nerrnos r =
    let value = if r.abi == abi_arm then reg32 r.words 0 else reg64 r.words 0 in
    elim (is_negated_errno Arch.aarch64 nerrnos value r.abi) [
      | none ↦ none
      | some failed ↦ some (if failed then (2 ^ 64 - 1, u32 (neg64 value)) else (value, 0))
    ]

pub argument : Regset → (arg_index : ℕ) → ℤ × Option ℕ
argument r arg_index = if leb max_args arg_index then (neg einval, none) else (
  pos 0,
  some (if r.abi == abi_aarch64 then reg64 r.words arg_index else reg32 r.words arg_index),
)

-- `put` stores a number of 32-bit words behind a pointer, `size` is that of struct user_pt_regs; `regs` is the address
-- of the union and `io` that of aarch64_io.
module _ {K : Type 0} (sys : PtraceCall K) (blocks : Blocks K)
    (put : (addr count : ℕ) → (ℕ → ℕ) → K → K) (have : Have) (size pid : ℕ) where
  module _ (regs io nt_prstatus : ℕ) where
    -- What follows the call that read the registers.
    finish : Regset → ℤ × State K → Option ((ℤ × Regset) × State K)
    finish r (status, t) =
        let len = blocks.length_at t.kernel io in
        let words = blocks.words_at t.kernel regs in
        if is_neg status
        then some ((status, record r { words = words; iov_len = len }), t)
        else elim (choose_abi size len) [
          | none ↦ none
          | some abi ↦ some ((pos 0, record { words = words; iov_len = len; abi = abi }), t)
        ]

    pub fill : Regset → D K (ℤ × Regset)
    fill r s =
        if have.getregset
        then finish r (
            get_regset sys have pid io nt_prstatus
              (record s { kernel = blocks.set_io io regs (max size arm_size) s.kernel }))
        else some ((neg enosys, r), s)

    -- pink_trace_set_regset of what the register set holds, with the iov_base that fill has set and the
    -- register set's own iov_len, which the kernel may change.
    pub store : Regset → M K (ℤ × Regset)
    store r s =
        let (status, t) = set_regset sys have pid io nt_prstatus (record s {
          kernel =
              blocks.set_io io regs r.iov_len (put regs (max size arm_size / 4) r.words s.kernel);
        }) in
        ((status, record r { iov_len = blocks.length_at t.kernel io }), t)

    -- `error` is the 32-bit pattern of an int.
    pub write_retval : (retval error : ℕ) → Regset → M K (ℤ × Regset)
    unfolding store
    write_retval value error r s =
        if r.abi == abi_arm
        then (let (status, t) =
              write_word_user sys pid 0 (if error == 0 then value else sext32 (2 ^ 32 - u32 error))
                s in
            ((status, r), t))
        else store
            (record r {
              words =
                  set_reg64 r.words 0 (if error == 0 then value else sext32 (2 ^ 32 - u32 error));
            })
            s

    pub write_argument : (arg_index argval : ℕ) → Regset → M K (ℤ × Regset)
    unfolding store
    write_argument arg_index argval r s =
        if leb max_args arg_index
        then ((neg einval, r), s)
        else if r.abi == abi_aarch64
        then store (record r { words = set_reg64 r.words arg_index argval }) s
        else store (record r { words = set_reg32 r.words arg_index argval }) s

  -- `n` and `n_io` are the addresses of the two local variables.
  pub write_syscall : (n n_io nt_arm_system_call sysnum : ℕ) → M K ℤ
  write_syscall n n_io nt_arm_system_call sysnum s =
      set_regset sys have pid n_io nt_arm_system_call
        (record s { kernel = blocks.set_io n_io n 4 (put n 1 (λ i. sysnum % 2 ^ 16) s.kernel) })
