-- ===== src/Write.antt =====
-- pinktrace/write.c in a build for x86-64.
pub mod Registers
pub mod Data
mod Tests
use pinktrace.Prelude.{
  ℕ, ◌+◌, ◌-◌, ◌*◌, ◌^◌, Bool, true, false, ◌||◌, Option, none, some, List, [], ◌∷◌, ◌==◌,
  if◌then◌else◌, ltb, leb, ℤ, pos, negsuc, neg, is_neg, u32, u64, neg64, sext32,
}
use pinktrace.System.{
  State, M, Calls, PtraceCall, get_errno, set_errno, eperm, enosys, einval, pure,
}
use pinktrace.Abi.{Arch, abi_x86_64, abi_i386, abi_x32}
use pinktrace.Regset.{Reg, rdi, rsi, rdx, r10, r8, r9, rax, orig_rax, rbx, rcx, rbp}
use pinktrace.Read.{max_args}
use pinktrace.Word.{write_word_user}
use pinktrace.Vm.{cwrite, lwrite}
use pinktrace.System.Loop.{D, ◌>>=◌, ◌>>◌, ret, lift}

-- The switch of pink_write_argument for the i386 ABI, and that for the other two.
pub argument_reg_i386 : ℕ → Option Reg
argument_reg_i386 i =
    if i == 0
    then some rbx
    else if i == 1
    then some rcx
    else if i == 2
    then some rdx
    else if i == 3
    then some rsi
    else if i == 4
    then some rdi
    else if i == 5
    then some rbp
    else none

pub argument_reg : ℕ → Option Reg
argument_reg i =
    if i == 0
    then some rdi
    else if i == 1
    then some rsi
    else if i == 2
    then some rdx
    else if i == 3
    then some r10
    else if i == 4
    then some r8
    else if i == 5
    then some r9
    else none

-- `index` gives RBX, RCX and so on of sys/reg.h.
module _ {K : Type 0} (sys : PtraceCall K) (index : Reg → ℕ) (pid : ℕ) where
  pub syscall : (sysnum : ℕ) → M K ℤ
  syscall sysnum = write_word_user sys pid (8 * index orig_rax) sysnum

  -- `error` is the 32-bit pattern of an int.
  pub retval : (retval error : ℕ) → M K ℤ
  retval value error =
      write_word_user sys pid (8 * index rax)
        (if error == 0 then value else sext32 (2 ^ 32 - u32 error))

  -- `none` for an abort().
  at_reg : Option Reg → (argval : ℕ) → D K ℤ
  at_reg none argval = λ s. none
  at_reg (some r) argval = lift (write_word_user sys pid (8 * index r) argval)

  pub argument : (abi arg_index argval : ℕ) → D K ℤ
  unfolding at_reg argument_reg argument_reg_i386
  argument abi arg_index argval =
      if leb max_args arg_index
      then ret (neg einval)
      else if abi == abi_i386
      then at_reg (argument_reg_i386 arg_index) argval
      else if abi == abi_x32 || abi == abi_x86_64
      then at_reg (argument_reg arg_index) argval
      else ret (neg einval)

module _ {K : Type 0} (sys : Calls K) (abi pid : ℕ) where
  pub vm_data : (junk : ℕ → List ℕ) → (src : ℕ → ℕ) → (addr len : ℕ) → D K ℤ
  vm_data junk src addr len = do
    lift (set_errno 0)
    r ← cwrite sys.have_writev sys.writev Arch.x86_64 abi pid src addr len
    e ← lift get_errno
    if e == enosys || e == eperm then lwrite sys.ptrace pid junk src addr len else ret r
