-- ===== src/Powerpc/Narrow.antt =====
-- The branches of pinktrace/regset.c, pinktrace/read.c and pinktrace/write.c for PowerPC, in a build
-- for 32 bits: a `long` has 4 bytes here, and is its 32-bit pattern. pink_read_syscall and
-- pink_read_argument are those of a build for 64 bits.
pub mod Registers
mod Tests
use pinktrace.Prelude.{
  ℕ, ◌+◌, ◌-◌, ◌*◌, ◌^◌, Bool, Option, none, some, List, ◌==◌, if◌then◌else◌, leb, ℤ, pos, neg,
  is_neg, u32, get_or,
}
use pinktrace.System.{State, M, ◌>>=◌, pure, PtraceCall, einval}
use pinktrace.Trace.{Have, get_regs}
use pinktrace.Abi.{Arch}
use pinktrace.Word.Narrow.{widen, neg32, peek_user, poke_user}
use pinktrace.Read.{max_args, is_negated_errno}
use pinktrace.Powerpc.{PtRegs, Regset, Index, has_so, set_so, clear_so}

-- PINK_ABI_DEFAULT
abbrev pub abi_default : ℕ
abi_default = 0

-- The return value, and the error as an `int`; `none` for an abort().
pub retval : (nerrnos : List ℕ) → Regset → Option (ℕ × ℕ)
retval nerrnos r =
    let ppc_result = if has_so r.ppc_regs.ccr then neg32 (r.ppc_regs.gpr 3) else r.ppc_regs.gpr 3 in
    elim (is_negated_errno Arch.powerpc nerrnos ppc_result r.abi) [
      | none ↦ none
      | some failed ↦ some (if failed then (2 ^ 32 - 1, neg32 ppc_result) else (ppc_result, 0))
    ]

module _ {K : Type 0} (sys : PtraceCall K) where
  -- `regs_at` is what stands behind a pointer to a struct pt_regs, and `regs` is that pointer.
  pub fill : (regs_at : K → ℕ → PtRegs) → Have → (pid regs : ℕ) → Regset → M K (ℤ × Regset)
  fill regs_at have pid regs r = do
    status ← get_regs (widen sys) have pid regs
    λ s.
        let r' : Regset = record { ppc_regs = regs_at s.kernel regs; abi = abi_default } in
        ((if is_neg status then status else pos 0, r'), s)

  module _ (index : Index) (pid : ℕ) where
    pub write_syscall : (sysnum : ℕ) → M K ℤ
    write_syscall sysnum = poke_user sys pid (4 * index.pt_r0) sysnum

    -- `error` is the 32-bit pattern of an int.
    pub write_retval : (retval error : ℕ) → M K ℤ
    write_retval value error = do
      (r, flags) ← peek_user sys pid (4 * index.pt_ccr)
      if is_neg r
          then pure r
          else (let flags' =
                (if error == 0 then clear_so (get_or 0 flags) else set_so (get_or 0 flags)) in
              do
                r' ← poke_user sys pid (4 * index.pt_r3) (if error == 0 then value else error)
                if is_neg r' then pure r' else poke_user sys pid (4 * index.pt_ccr) flags')

    pub write_argument : (arg_index argval : ℕ) → M K ℤ
    write_argument arg_index argval =
        if leb max_args arg_index
        then pure (neg einval)
        else poke_user sys pid
            (if arg_index == 0 then 4 * index.pt_orig_r3 else (arg_index + index.pt_r3) * 4) argval
