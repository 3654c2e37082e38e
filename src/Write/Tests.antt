-- ===== src/Write/Tests.antt =====
-- A tracee whose registers can be written, and what is read back.
use pinktrace.Prelude.{
  ℕ, ◌+◌, ◌-◌, ◌*◌, ◌/◌, ◌%◌, ◌^◌, ◌<◌, ◌≡◌, refl, arith, some, [], ◌∷◌, ◌==◌, if◌then◌else◌, inr,
  pos,
}
use pinktrace.System.{Request, State, PtraceCall, efault}
use pinktrace.Trace.{minus_one}
use pinktrace.Abi.{abi_x86_64, abi_i386, abi_x32}
use pinktrace.Regset.{
  Reg, rbx, rcx, rdx, rsi, rdi, rbp, rax, r8, r9, r10, orig_rax, rip, rsp, cs, reg64, conversions,
  assign_all, Layout,
}
use pinktrace.Regset.Convert.{linux_word, assign_all-Holds}
use pinktrace.Read
use pinktrace.Read.Registers.{in_abi}
use pinktrace.Write
use pinktrace.Write.{retval, argument}
use pinktrace.Write.Registers.{
  PokesRegs, after, retval-retval, argument-argument, argument-argument_i386,
}

abbrev linux : Layout
linux = record { word = linux_word; size = 216 }

abbrev index : Reg → ℕ
index r = linux_word r / 2

-- The kernel is the register file, in 32-bit words.
abbrev Words : Type 0
Words = ℕ → ℕ

abbrev put : (place v : ℕ) → Words → Words
put place v words j =
    if j == place then v % 2 ^ 32 else if j == place + 1 then v / 2 ^ 32 else words j

abbrev poke_only : PtraceCall Words
poke_only Request.pokeuser pid a v s = (0, record s { kernel = put (2 * (a / 8)) v s.kernel })
poke_only _ pid a v s = (minus_one, record s { errno = efault })

regs : Words → Reg → ℕ
regs words r = reg64 linux words r

two_words :
    (i v : ℕ) (words : Words) → v < 2 ^ 64 → put i v words i + 2 ^ 32 * put i v words (i + 1) ≡ v
two_words i v words h = ground arith

whole : (r : Reg) → 2 * (8 * index r / 8) ≡ linux_word r
whole rbx = refl
whole rcx = refl
whole rdx = refl
whole rsi = refl
whole rdi = refl
whole rbp = refl
whole rax = refl
whole r8 = refl
whole r9 = refl
whole r10 = refl
whole orig_rax = refl
whole rip = refl
whole rsp = refl
whole cs = refl

poke_only-PokesRegs : PokesRegs poke_only index 1 regs
unfolding regs reg64
poke_only-PokesRegs = record {
  poked = λ s r v. put (2 * (8 * index r / 8)) v s.kernel;
  pokes = λ s r v. refl;
  stored = λ s r v h. rw (whole r) (two_words (linux_word r) v s.kernel h);
}

abbrev start : State Words
start = record { errno = 3; kernel = λ j. j }

retval-retval_example :
    let t = (retval poke_only index 1 7 13 start).1 in
    ((retval poke_only index 1 7 13 start).0 ≡ pos 0)
    × (Read.retval (134 ∷ 134 ∷ 134 ∷ []) linux (in_abi t.kernel 216 abi_x86_64)
        ≡ some (if 13 == 0 then 7 else 2 ^ 64 - 1, 13))
retval-retval_example =
    retval-retval poke_only index 1 regs poke_only-PokesRegs (134 ∷ 134 ∷ 134 ∷ []) 134 linux
      (retval poke_only index 1 7 13 start).1.kernel 216 7 13 start refl (omega arith) (omega arith)
      (omega arith) (omega arith) (λ r. unfold regs in refl)

abbrev third : State Words
third = after poke_only index 1 regs poke_only-PokesRegs start rdx 99

argument-argument_example :
    (argument poke_only index 1 abi_x32 2 99 start ≡ some (pos 0, third))
    × (Read.argument linux (in_abi third.kernel 216 abi_x32) 2 ≡ some (pos 0, some 99))
argument-argument_example =
    argument-argument poke_only index 1 regs poke_only-PokesRegs linux third.kernel 216 abi_x32 2 99
      rdx start (inr refl) (unfold Write.argument_reg in refl) (omega arith) (omega arith)
      (λ r. unfold regs in refl)

abbrev minus_two : State Words
minus_two = after poke_only index 1 regs poke_only-PokesRegs start rbx (2 ^ 32 - 2)

abbrev short : Words
short = assign_all linux conversions minus_two.kernel

argument-argument_i386_example :
    (argument poke_only index 1 abi_i386 0 (2 ^ 32 - 2) start ≡ some (pos 0, minus_two))
    × (Read.argument linux (in_abi short 68 abi_i386) 0 ≡ some (pos 0, some (2 ^ 64 - 2)))
argument-argument_i386_example =
    argument-argument_i386 poke_only index 1 regs poke_only-PokesRegs linux minus_two.kernel short
      68 0 (2 ^ 32 - 2) rbx start
      (assign_all-Holds linux minus_two.kernel (record { word = λ r. refl; size = refl }))
      (unfold Write.argument_reg_i386 in refl) (omega arith) (omega arith)
      (λ r. unfold regs in refl)
