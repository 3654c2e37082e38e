-- ===== src/Regset/Convert.antt =====
-- pink_regset_fill: the conversion to 32-bit registers in place, and the choice of the ABI.
use mathlib.Core.Path.{fun_ext, subst, sym}
use pinktrace.Prelude.{
  ℕ, ◌≡◌, ◌≢◌, refl, arith, true, false, ◌==◌, ==_iff, u32, Bool-cases, inl, inr, if◌then◌else◌,
}
use pinktrace.Abi.{abi_x86_64, abi_i386, abi_x32}
use pinktrace.Regset.{
  Reg, rbx, rcx, rdx, rsi, rdi, rbp, rax, r8, r9, r10, orig_rax, rip, rsp, cs, ebx, ecx, edx, esi,
  edi, ebp, eax, orig_eax, eip, esp, Layout, Regset, reg64, reg32, assign, assign_all, conversions,
  from_regs, choose_abi, has_x32_bit, i386_size,
}

-- Linux's struct user_regs_struct on x86-64, in 32-bit words, and its size.
abbrev pub linux_word : Reg → ℕ
linux_word rbp = 8
linux_word rbx = 10
linux_word r10 = 14
linux_word r9 = 16
linux_word r8 = 18
linux_word rax = 20
linux_word rcx = 22
linux_word rdx = 24
linux_word rsi = 26
linux_word rdi = 28
linux_word orig_rax = 30
linux_word rip = 32
linux_word cs = 34
linux_word rsp = 38

pub record IsLinux (l : Layout) : Type 0 where
  pub word : (r : Reg) → l.word r ≡ linux_word r
  pub size : l.size ≡ 216

-- The 32-bit register that stands for a 64-bit one.
abbrev pub Holds : Layout → (ℕ → ℕ) → (ℕ → ℕ) → Type 0
Holds l words out =
    (reg32 out ebx ≡ u32 (reg64 l words rbx))
    × (reg32 out ecx ≡ u32 (reg64 l words rcx))
    × (reg32 out edx ≡ u32 (reg64 l words rdx))
    × (reg32 out esi ≡ u32 (reg64 l words rsi))
    × (reg32 out edi ≡ u32 (reg64 l words rdi))
    × (reg32 out ebp ≡ u32 (reg64 l words rbp))
    × (reg32 out eax ≡ u32 (reg64 l words rax))
    × (reg32 out orig_eax ≡ u32 (reg64 l words orig_rax))
    × (reg32 out eip ≡ u32 (reg64 l words rip))
    × (reg32 out esp ≡ u32 (reg64 l words rsp))

in_place :
    (n : ℕ) (words : ℕ → ℕ)
    → let l : Layout = record { word = linux_word; size = n } in
      Holds l words (assign_all l conversions words)
unfolding assign_all assign reg32 reg64
in_place n words = (refl, refl, refl, refl, refl, refl, refl, refl, refl, refl)

-- On Linux the assignments may be made in place, although the two structures overlay one another:
-- after them each 32-bit register holds the low half of its 64-bit register as it was before.
pub assign_all-Holds :
    (l : Layout) (words : ℕ → ℕ) → IsLinux l → Holds l words (assign_all l conversions words)
assign_all-Holds l words linux =
    subst
      (λ w.
        Holds (record { word = w; size = l.size }) words
          (assign_all (record { word = w; size = l.size }) conversions words))
      (sym (fun_ext linux.word)) (in_place l.size words)

-- A process whose code segment is 0x23, in the registers that PTRACE_GETREGS gave to a 64-bit build
-- on Linux, gets the i386 ABI, and each 32-bit register of it is the low half of the 64-bit register
-- that was read.
pub from_regs-i386 :
    (l : Layout) (words : ℕ → ℕ) (r : Regset)
    → IsLinux l
    → reg64 l words cs ≡ 0x23
    → ((choose_abi l (from_regs l words r)).abi ≡ abi_i386)
      × Holds l words (choose_abi l (from_regs l words r)).words
unfolding choose_abi from_regs
from_regs-i386 l words r linux h =
    let e : (reg64 l words cs == 0x23) ≡ true = (==_iff _ _).1 h in
    rw e (refl, assign_all-Holds l words linux)

-- A process with another code segment, in the registers that PTRACE_GETREGS gave to a 64-bit build on
-- Linux, keeps its registers, and gets the x32 ABI if bit 30 of orig_rax is set and the x86-64 ABI
-- if it is not.
pub from_regs-x86_64 :
    (l : Layout) (words : ℕ → ℕ) (r : Regset)
    → IsLinux l
    → reg64 l words cs ≢ 0x23
    → ((choose_abi l (from_regs l words r)).abi
        ≡ (if has_x32_bit (reg64 l words orig_rax) then abi_x32 else abi_x86_64))
      × ((choose_abi l (from_regs l words r)).words ≡ words)
unfolding choose_abi from_regs
from_regs-x86_64 l words r linux h =
    let e : (reg64 l words cs == 0x23) ≡ false = ground arith in
    let long_regs : (l.size == i386_size) ≡ false = rw linux.size in
    elim (Bool-cases (has_x32_bit (reg64 l words orig_rax))) [
      | inl b ↦ rw (e, long_regs, b) (refl, refl)
      | inr b ↦ rw (e, long_regs, b) (refl, refl)
    ]
