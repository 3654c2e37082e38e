-- ===== src/Powerpc.antt =====
-- The branches of pinktrace/regset.c, pinktrace/read.c and pinktrace/write.c for PowerPC, in a build
-- for 64 bits.
pub mod Retval
pub mod Registers
pub mod Narrow
mod Tests
use pinktrace.Prelude.{
  ℕ, ◌+◌, ◌-◌, ◌*◌, ◌/◌, ◌%◌, ◌^◌, Bool, true, false, Option, none, some, List, ◌==◌, if◌then◌else◌,
  leb, ℤ, pos, neg, is_neg, u32, u64, neg64, sext32, get_or,
}
use pinktrace.System.{State, M, ◌>>=◌, pure, PtraceCall, einval}
use pinktrace.Trace.{Have, get_regs}
use pinktrace.Abi.{Arch}
use pinktrace.Word.{read_word_user, write_word_user}
use pinktrace.Read.{max_args, is_negated_errno}

-- The fields of struct pt_regs (asm/ptrace.h) that the code names.
pub record PtRegs : Type 0 where
  pub gpr : ℕ → ℕ
  pub orig_gpr3 : ℕ
  pub ccr : ℕ
  pub msr : ℕ

-- struct pink_regset
pub record Regset : Type 0 where
  pub ppc_regs : PtRegs
  pub abi : ℕ

-- The numbers of asm/ptrace.h: the place of a register in words.
pub record Index : Type 0 where
  pub pt_r0 : ℕ
  pub pt_r3 : ℕ
  pub pt_orig_r3 : ℕ
  pub pt_ccr : ℕ

-- SO_MASK, 0x10000000: its bit in a word, the word with it and the word without it.
abbrev so_mask : ℕ
so_mask = 2 ^ 28

abbrev pub has_so : ℕ → Bool
has_so flags = flags / so_mask % 2 == 1

abbrev pub set_so : ℕ → ℕ
set_so flags = if has_so flags then flags else flags + so_mask

abbrev pub clear_so : ℕ → ℕ
clear_so flags = if has_so flags then flags - so_mask else flags

-- PINK_ABI_DEFAULT: configure.ac sets PINK_ARCH_POWERPC, and PINK_ARCH_POWERPC64 never, so there is one
-- ABI and the test of msr is not compiled.
abbrev pub abi_default : ℕ
abi_default = 0

pub syscall : Regset → ℕ
syscall r = r.ppc_regs.gpr 0

-- The return value, and the error as an `int`; `none` for an abort().
pub retval : (nerrnos : List ℕ) → Regset → Option (ℕ × ℕ)
retval nerrnos r =
    let ppc_result = if has_so r.ppc_regs.ccr then neg64 (r.ppc_regs.gpr 3) else r.ppc_regs.gpr 3 in
    elim (is_negated_errno Arch.powerpc64 nerrnos ppc_result r.abi) [
      | none ↦ none
      | some failed ↦
          some (if failed then (2 ^ 64 - 1, u32 (neg64 ppc_result)) else (ppc_result, 0))
    ]

pub argument : Regset → (arg_index : ℕ) → ℤ × Option ℕ
argument r arg_index = if leb max_args arg_index then (neg einval, none) else (
  pos 0,
  some (if arg_index == 0 then r.ppc_regs.orig_gpr3 else r.ppc_regs.gpr (arg_index + 3)),
)

module _ {K : Type 0} (sys : PtraceCall K) where
  -- `regs_at` is what stands behind a pointer to a struct pt_regs, and `regs` is that pointer.
  pub fill : (regs_at : K → ℕ → PtRegs) → Have → (pid regs : ℕ) → Regset → M K (ℤ × Regset)
  fill regs_at have pid regs r = do
    status ← get_regs sys have pid regs
    λ s.
        let got = regs_at s.kernel regs in
        ((if is_neg status then status else pos 0, record { ppc_regs = got; abi = abi_default }), s)

  module _ (index : Index) (pid : ℕ) where
    pub write_syscall : (sysnum : ℕ) → M K ℤ
    write_syscall sysnum = write_word_user sys pid (8 * index.pt_r0) sysnum

    -- `error` is the 32-bit pattern of an int.
    pub write_retval : (retval error : ℕ) → M K ℤ
    write_retval value error = do
      (r, flags) ← read_word_user sys pid (8 * index.pt_ccr)
      if is_neg r
          then pure r
          else (let flags' =
                (if error == 0 then clear_so (get_or 0 flags) else set_so (get_or 0 flags)) in
              do
                r' ←
                    write_word_user sys pid (8 * index.pt_r3)
                      (if error == 0 then value else sext32 error)
                if is_neg r' then pure r' else write_word_user sys pid (8 * index.pt_ccr) flags')

    pub write_argument : (arg_index argval : ℕ) → M K ℤ
    write_argument arg_index argval =
        if leb max_args arg_index
        then pure (neg einval)
        else write_word_user sys pid
            (if arg_index == 0 then 8 * index.pt_orig_r3 else (arg_index + index.pt_r3) * 8) argval
