-- ===== src/Arm.antt =====
-- The branches of pinktrace/regset.c, pinktrace/read.c and pinktrace/write.c for ARM, but that of
-- pink_write_retval, which does not compile: it names PINK_ABI_ARM and a union that are AArch64's. A
-- `long` has 4 bytes here, and is its 32-bit pattern.
pub mod Syscall
pub mod Registers
mod Tests
use pinktrace.Prelude.{
  ℕ, ◌+◌, ◌-◌, ◌*◌, ◌/◌, ◌%◌, ◌^◌, Bool, true, false, not, Option, none, some, List, ◌==◌,
  if◌then◌else◌, leb, ℤ, pos, neg, is_neg, u32, get_or,
}
use pinktrace.System.{State, M, ◌>>=◌, pure, PtraceCall, Request, efault, einval}
use pinktrace.Trace.{Have, get_regs, call}
use pinktrace.Abi.{Arch}
use pinktrace.Word.Narrow.{widen, neg32, peek_data, poke_user}
use pinktrace.Read.{max_args, is_negated_errno}

-- struct pink_regset: the words of struct pt_regs, and the ABI.
pub record Regset : Type 0 where
  pub uregs : ℕ → ℕ
  pub abi : ℕ

-- PINK_ABI_DEFAULT
abbrev pub abi_default : ℕ
abi_default = 0

-- ARM_r0, ARM_r7 and so on of asm/ptrace.h: the places of registers in struct pt_regs.
pub record Places : Type 0 where
  pub arm_r0 : ℕ
  pub arm_r7 : ℕ
  pub arm_ip : ℕ
  pub arm_pc : ℕ
  pub arm_cpsr : ℕ
  pub arm_orig_r0 : ℕ

-- regs.ARM_cpsr & 0x20
abbrev pub in_thumb_mode : ℕ → Bool
in_thumb_mode cpsr = cpsr / 0x20 % 2 == 1

-- The instruction of an EABI system call.
abbrev pub eabi_instruction : ℕ
eabi_instruction = 0xef000000

-- (sysval & 0x0ff00000) == 0x0f900000
abbrev pub is_oabi_instruction : ℕ → Bool
is_oabi_instruction sysval = sysval / 2 ^ 20 % 2 ^ 8 == 0xf9

-- The return value, and the error as an `int`; `none` for an abort().
pub retval : Places → (nerrnos : List ℕ) → Regset → Option (ℕ × ℕ)
retval places nerrnos r =
    let r0 = r.uregs places.arm_r0 in
    elim (is_negated_errno Arch.arm nerrnos r0 r.abi) [
      | none ↦ none
      | some failed ↦ some (if failed then (2 ^ 32 - 1, neg32 r0) else (r0, 0))
    ]

-- The result, and the argument where one is stored.
pub argument : Places → Regset → (arg_index : ℕ) → ℤ × Option ℕ
argument places r arg_index =
    if leb max_args arg_index
    then (neg einval, none)
    else (pos 0, some (r.uregs (if arg_index == 0 then places.arm_orig_r0 else arg_index)))

module _ {K : Type 0} (sys : PtraceCall K) where
  -- The result, and the system call number where one is stored.
  pub syscall : Places → (pid : ℕ) → Regset → M K (ℤ × Option ℕ)
  syscall places pid r =
      if not (r.uregs places.arm_ip == 0)
      then pure (neg efault, none)
      else if in_thumb_mode (r.uregs places.arm_cpsr)
      then pure (pos 0, some (r.uregs places.arm_r7))
      else (do
        (status, word) ← peek_data sys pid (u32 (r.uregs places.arm_pc + 2 ^ 32 - 4))
        let sysval = get_or 0 word in
            if is_neg status
            then pure (status, none)
            else if sysval == eabi_instruction
            then pure (pos 0, some (r.uregs places.arm_r7))
            else if not (is_oabi_instruction sysval)
            then pure (neg efault, none)
            else pure (pos 0, some (sysval % 2 ^ 20)))

  -- `regs_at` is what stands behind a pointer to a struct pt_regs, and `regs` is that pointer.
  pub fill : (regs_at : K → ℕ → ℕ → ℕ) → Have → (pid regs : ℕ) → Regset → M K (ℤ × Regset)
  fill regs_at have pid regs r = do
    status ← get_regs (widen sys) have pid regs
    λ s.
        let r' : Regset = record { uregs = regs_at s.kernel regs; abi = abi_default } in
        ((if is_neg status then status else pos 0, r'), s)

  -- sysnum & 0xffff
  pub write_syscall : (pid sysnum : ℕ) → M K ℤ
  write_syscall pid sysnum = call (widen sys) Request.set_syscall pid 0 (sysnum % 2 ^ 16)

  pub write_argument : (pid arg_index argval : ℕ) → M K ℤ
  write_argument pid arg_index argval =
      if leb max_args arg_index
      then pure (neg einval)
      else poke_user sys pid (if arg_index == 0 then 4 * 17 else 4 * arg_index) argval
