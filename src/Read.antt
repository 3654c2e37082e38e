-- ===== src/Read.antt =====
-- pinktrace/read.c in a build for x86-64: registers are read from a register set, data from the
-- tracee. A value through a pointer is returned beside the result; `none` for an abort().
pub mod Negated
pub mod Registers
pub mod Data
pub mod Copy
pub mod Strings
pub mod Members
pub mod Total
mod Tests
use pinktrace.Prelude.{
  ◌&&◌, ℕ, ◌+◌, ◌-◌, ◌*◌, ◌/◌, ◌%◌, ◌^◌, Bool, true, false, ◌||◌, not, Option, none, some, List, [],
  ◌∷◌, ◌++◌, ◌==◌, if◌then◌else◌, ltb, leb, length, take, drop, get_elem?, ℤ, pos, negsuc, neg,
  is_neg, pos_part, u32, u64, neg64, sext32, from_le,
}
use pinktrace.System.{State, M, Calls, get_errno, set_errno, eperm, enosys, efault, einval}
use pinktrace.System.Loop.{D, ◌>>=◌, ◌>>◌, ret, lift}
use pinktrace.Abi.{Arch, abis_supported, sizeof_long, wordsize, abi_x86_64, abi_i386, abi_x32}
use pinktrace.Regset.{
  Regset, Layout, Reg, rdi, rsi, rdx, r10, r8, r9, rax, orig_rax, Reg32, ebx, ecx, edx, esi, edi,
  ebp, eax, orig_eax, reg64, reg32, x32_syscall_bit,
}
use pinktrace.Vm.{cread, lread, cread_nul, lread_nul}

-- PINK_MAX_ARGS
abbrev pub max_args : ℕ
max_args = 6

unfoldable pub abi : Regset → ℕ
abi r = r.abi

-- The system call number as a `long`.
unfoldable pub syscall : Layout → Regset → ℕ
syscall l r =
    if r.abi == abi_i386
    then reg32 r.words orig_eax
    else (let sysnum = reg64 l r.words orig_rax in
        if r.abi == abi_x32 then u64 (sysnum + 2 ^ 64 - x32_syscall_bit) else sysnum)

-- `nerrnos` are nerrnos0, nerrnos1 and so on, as many as there are ABIs. A `long` of 4 bytes is its
-- 32-bit pattern here.
pub is_negated_errno : Arch → (nerrnos : List ℕ) → (val abi : ℕ) → Option Bool
unfolding wordsize abis_supported sizeof_long
is_negated_errno arch nerrnos val abi = elim (get_elem? nerrnos abi) [
  | none ↦ none
  | some n ↦
      let max = (2 ^ (8 * sizeof_long arch) - n) % 2 ^ (8 * sizeof_long arch) in
      some (
        if ltb 1 (abis_supported arch)
          && ltb 4 (sizeof_long arch)
          && ltb (wordsize arch abi) (sizeof_long arch)
        then ltb (u32 max) (u32 val)
        else ltb max val)
]

-- The return value, and the error as an `int`.
pub retval : (nerrnos : List ℕ) → Layout → Regset → Option (ℕ × ℕ)
unfolding is_negated_errno
retval nerrnos l r =
    let value = if r.abi == abi_i386 then sext32 (reg32 r.words eax) else reg64 l r.words rax in
    elim (is_negated_errno Arch.x86_64 nerrnos value r.abi) [
      | none ↦ none
      | some failed ↦ some (if failed then (2 ^ 64 - 1, u32 (neg64 value)) else (value, 0))
    ]

-- The switches of pink_read_argument.
unfoldable pub argument_reg : ℕ → Option Reg
argument_reg i =
    if i == 0
    then some rdi
    else if i == 1
    then some rsi
    else if i == 2
    then some rdx
    else if i == 3
    then some r10
    else if i == 4
    then some r8
    else if i == 5
    then some r9
    else none

unfoldable pub argument_reg32 : ℕ → Option Reg32
argument_reg32 i =
    if i == 0
    then some ebx
    else if i == 1
    then some ecx
    else if i == 2
    then some edx
    else if i == 3
    then some esi
    else if i == 4
    then some edi
    else if i == 5
    then some ebp
    else none

-- The result, and the argument where one is stored.
pub argument : Layout → Regset → (arg_index : ℕ) → Option (ℤ × Option ℕ)
argument l r arg_index =
    if leb max_args arg_index
    then some (neg einval, none)
    else if not (r.abi == abi_i386)
    then elim (argument_reg arg_index) [
      | none ↦ none
      | some g ↦ some (pos 0, some (reg64 l r.words g))
    ]
    else elim (argument_reg32 arg_index) [
      | none ↦ none
      | some g ↦ some (pos 0, some (sext32 (reg32 r.words g)))
    ]

module _ {K : Type 0} (sys : Calls K) (abi pid : ℕ) where
  -- errno == ENOSYS || errno == EPERM
  unavailable : ℕ → Bool
  unavailable e = e == enosys || e == eperm

  pub vm_data : (addr len : ℕ) → D K (ℤ × List ℕ)
  unfolding unavailable
  vm_data addr len = do
    lift (set_errno 0)
    r ← cread sys.have_readv sys.readv Arch.x86_64 abi pid addr len
    e ← lift get_errno
    if unavailable e then lread sys.ptrace pid addr len else ret r

  pub vm_data_full : (addr len : ℕ) → D K (ℤ × List ℕ)
  vm_data_full addr len = do
    lift (set_errno 0)
    (l, dest) ← vm_data addr len
    e ← lift get_errno
    ret ((if is_neg l then neg e else if len == pos_part l then pos 0 else neg efault, dest))

  pub vm_data_nul : (addr len : ℕ) → D K (ℤ × List ℕ)
  unfolding unavailable
  vm_data_nul addr len = do
    lift (set_errno 0)
    r ← cread_nul sys.have_readv sys.readv Arch.x86_64 abi pid addr len
    e ← lift get_errno
    if unavailable e then lread_nul sys.ptrace pid addr len else ret r

  -- The union `cp`: `junk` are its 8 bytes before the pointer is read into it.
  pointer : (junk got : List ℕ) → (wsize : ℕ) → ℕ
  pointer junk got wsize =
      let bytes = got ++ drop (length got) junk in
      if ltb wsize 8 then from_le (take 4 bytes) else from_le (take 8 bytes)

  -- The result, the bytes of the string, and what is stored through `nullptr`.
  pub string_array : (junk : List ℕ) → (arg arr_index dest_len : ℕ) → D K (ℤ × List ℕ × Option Bool)
  unfolding pointer
  string_array junk arg arr_index dest_len =
      let wsize = wordsize Arch.x86_64 abi in
      do
        lift (set_errno 0)
        (_, got) ← vm_data (u64 (arg + arr_index * wsize)) wsize
        e ← lift get_errno
        if not (e == 0)
            then ret (pos 0, [], none)
            else if pointer junk got wsize == 0
            then ret (pos 0, [], some true)
            else (do
              (r, dest) ← vm_data_nul (pointer junk got wsize) dest_len
              ret (r, dest, some false))
