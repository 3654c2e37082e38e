-- ===== src/I386.antt =====
-- The branches of pinktrace/regset.c, pinktrace/read.c and pinktrace/write.c for i386. A `long` has 4
-- bytes here, and is its 32-bit pattern.
pub mod Registers
mod Tests
use pinktrace.Prelude.{
  ℕ, ◌+◌, ◌-◌, ◌*◌, ◌^◌, Bool, Option, none, some, List, [], ◌∷◌, ◌==◌, if◌then◌else◌, leb, ℤ, pos,
  neg, is_neg, u32,
}
use pinktrace.System.{State, M, ◌>>=◌, PtraceCall, einval}
use pinktrace.System.Loop.{D, ret, lift}
use pinktrace.Trace.{Have, get_regs}
use pinktrace.Abi.{Arch}
use pinktrace.Regset.{Reg32, ebx, ecx, edx, esi, edi, ebp, eax, orig_eax}
use pinktrace.Word.Narrow.{widen, neg32, poke_user}
use pinktrace.Read.{max_args, is_negated_errno}

-- struct pink_regset, with the fields of struct user_regs_struct (sys/user.h) that the code names.
pub record Regset : Type 0 where
  pub i386_regs : Reg32 → ℕ
  pub abi : ℕ

-- PINK_ABI_DEFAULT
abbrev pub abi_default : ℕ
abi_default = 0

pub syscall : Regset → ℕ
syscall r = r.i386_regs orig_eax

-- The return value, and the error as an `int`; `none` for an abort().
pub retval : (nerrnos : List ℕ) → Regset → Option (ℕ × ℕ)
retval nerrnos r = elim (is_negated_errno Arch.i386 nerrnos (r.i386_regs eax) r.abi) [
  | none ↦ none
  | some failed ↦
      some (if failed then (2 ^ 32 - 1, neg32 (r.i386_regs eax)) else (r.i386_regs eax, 0))
]

-- The switch of pink_read_argument, which is that of pink_write_argument too.
pub argument_reg : ℕ → Option Reg32
argument_reg i =
    if i == 0
    then some ebx
    else if i == 1
    then some ecx
    else if i == 2
    then some edx
    else if i == 3
    then some esi
    else if i == 4
    then some edi
    else if i == 5
    then some ebp
    else none

-- The result, and the argument where one is stored; `none` for an abort().
pub argument : Regset → (arg_index : ℕ) → Option (ℤ × Option ℕ)
unfolding argument_reg
argument r arg_index =
    if leb max_args arg_index
    then some (neg einval, none)
    else elim (argument_reg arg_index) [ none ↦ none | some g ↦ some (pos 0, some (r.i386_regs g)) ]

module _ {K : Type 0} (sys : PtraceCall K) where
  -- `regs_at` is what stands behind a pointer to a struct user_regs_struct, `regs` that pointer.
  pub fill : (regs_at : K → ℕ → Reg32 → ℕ) → Have → (pid regs : ℕ) → Regset → M K (ℤ × Regset)
  fill regs_at have pid regs r = do
    status ← get_regs (widen sys) have pid regs
    λ s.
        let r' : Regset = record { i386_regs = regs_at s.kernel regs; abi = abi_default } in
        ((if is_neg status then status else pos 0, r'), s)

  -- `index` gives EBX, ECX and so on of sys/reg.h.
  module _ (index : Reg32 → ℕ) (pid : ℕ) where
    pub write_syscall : (sysnum : ℕ) → M K ℤ
    write_syscall sysnum = poke_user sys pid (4 * index orig_eax) sysnum

    -- `error` is the 32-bit pattern of an int.
    pub write_retval : (retval error : ℕ) → M K ℤ
    write_retval value error =
        poke_user sys pid (4 * index eax) (if error == 0 then value else neg32 error)

    -- `none` for an abort().
    at_reg : Option Reg32 → (argval : ℕ) → D K ℤ
    at_reg none argval = λ s. none
    at_reg (some g) argval = lift (poke_user sys pid (4 * index g) argval)

    pub write_argument : (arg_index argval : ℕ) → D K ℤ
    unfolding at_reg argument_reg
    write_argument arg_index argval =
        if leb max_args arg_index then ret (neg einval) else at_reg (argument_reg arg_index) argval
