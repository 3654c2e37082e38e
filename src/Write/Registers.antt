-- ===== src/Write/Registers.antt =====
-- What pinktrace/write.c stores in the registers of a tracee, pinktrace/read.c reads back.
use pinktrace.Prelude.{
  ℕ, zero, suc, ◌+◌, ◌-◌, ◌*◌, ◌^◌, ◌≤◌, ◌<◌, ◌≡◌, refl, arith, ap, ◌∙◌, true, false, some, List,
  [], sym, get_or, ltb, ◌==◌, leb, if◌then◌else◌, get_elem?, pos, u32, sext32, inr, ◌⊎◌, ◌||◌,
}
use pinktrace.System.{Request, State, PtraceCall}
use pinktrace.Trace.Status.{call_succeeds}
use pinktrace.Abi.{abi_x86_64, abi_i386, abi_x32}
use pinktrace.Word.{write_word_user}
use pinktrace.Regset.{Reg, rax, rbx, Reg32, ebx, ecx, edx, esi, edi, ebp, Layout, reg64, reg32}
use pinktrace.Regset.Convert.{Holds}
use pinktrace.Read.{argument_reg32}
use pinktrace.Read
use pinktrace.Read.Registers.{in_abi, retval_error, retval_value, argument-reg64, argument-reg32}
use pinktrace.Write.{argument_reg_i386, argument_reg, retval, argument, at_reg}

-- PTRACE_POKEUSER at the place of a register stores the 64-bit value in that register.
pub record PokesRegs {K : Type 0} (sys : PtraceCall K) (index : Reg → ℕ) (pid : ℕ)
    (regs : K → Reg → ℕ) : Type 0 where
  pub poked : State K → Reg → ℕ → K
  pub pokes :
      (s : State K) (r : Reg) (v : ℕ)
      → sys Request.pokeuser pid (8 * index r) v s ≡ (0, record s { kernel = poked s r v })
  pub stored : (s : State K) (r : Reg) (v : ℕ) → v < 2 ^ 64 → regs (poked s r v) r ≡ v

-- The two switches name the same registers.
argument_reg_same : (i : ℕ) → argument_reg i ≡ Read.argument_reg i
unfolding argument_reg Read.argument_reg
argument_reg_same i = refl

-- The register that is written for an argument of the i386 ABI holds the one that is read.
i386_pair :
    (l : Layout) (words out : ℕ → ℕ) (i : ℕ)
    → Holds l words out
    → i < 6
    → (q : Reg32) × (argument_reg32 i ≡ some q)
      × (reg32 out q ≡ u32 (reg64 l words (get_or rbx (argument_reg_i386 i))))
unfolding argument_reg_i386 argument_reg32
i386_pair l words out zero (b, c, d, s, t, p, e, f, g, k) h = (ebx, refl, b)
i386_pair l words out (suc zero) (b, c, d, s, t, p, e, f, g, k) h = (ecx, refl, c)
i386_pair l words out (suc (suc zero)) (b, c, d, s, t, p, e, f, g, k) h = (edx, refl, d)
i386_pair l words out (suc (suc (suc zero))) (b, c, d, s, t, p, e, f, g, k) h = (esi, refl, s)
i386_pair l words out (suc (suc (suc (suc zero)))) (b, c, d, s, t, p, e, f, g, k) h = (edi, refl, t)
i386_pair l words out (suc (suc (suc (suc (suc zero))))) (b, c, d, s, t, p, e, f, g, k) h =
    (ebp, refl, p)
i386_pair l words out (suc (suc (suc (suc (suc (suc i)))))) holds h = absurd (omega arith)

module _ {K : Type 0} (sys : PtraceCall K) (index : Reg → ℕ) (pid : ℕ) (regs : K → Reg → ℕ)
    (poke : PokesRegs sys index pid regs) where
  -- The state that a write of a register leaves.
  abbrev pub after : State K → Reg → ℕ → State K
  after s r v = record { errno = 0; kernel = poke.poked (record s { errno = 0 }) r v }

  write_word_user-reg :
      (s : State K) (r : Reg) (v : ℕ)
      → write_word_user sys pid (8 * index r) v s ≡ (pos 0, after s r v)
  unfolding write_word_user
  write_word_user-reg s r v =
      let s' : State K = record s { errno = 0 } in
      call_succeeds sys Request.pokeuser pid (8 * index r) v s (after s r v) 0 (poke.pokes s' r v)
        (inr refl)

  -- On x86-64 in the x86-64 ABI: after pink_write_retval has stored a value or an error, and the
  -- registers are read into a register set, pink_read_retval gives that error with -1, or that value
  -- without an error. The error is 0 or one below nerrnos0; a value that is stored without an
  -- error is none of the negated ones.
  pub retval-retval :
      (nerrnos : List ℕ) (n : ℕ) (l : Layout) (words : ℕ → ℕ) (len value error : ℕ) (s : State K)
      → get_elem? nerrnos 0 ≡ some n
      → 0 < n
      → n < 2 ^ 31
      → error < n
      → value ≤ 2 ^ 64 - n
      → ((r : Reg) → reg64 l words r ≡ regs (retval sys index pid value error s).1.kernel r)
      → ((retval sys index pid value error s).0 ≡ pos 0)
        × (Read.retval nerrnos l (in_abi words len abi_x86_64)
            ≡ some (if error == 0 then value else 2 ^ 64 - 1, error))
  unfolding retval
  retval-retval nerrnos n l words len value zero s k p b q v h =
      let w : reg64 l words rax ≡ value =
        h rax
        ∙ ap (λ x. regs x.1.kernel rax) (write_word_user-reg s rax value)
        ∙ poke.stored (record s { errno = 0 }) rax value (omega arith) in
      (
        ap (λ x. x.0) (write_word_user-reg s rax value),
        retval_value nerrnos n l words len k p b (rw w v) ∙ ap (λ x. some (x, 0)) w,
      )
  retval-retval nerrnos n l words len value (suc e) s k p b q v h =
      let minus : sext32 (2 ^ 32 - u32 (suc e)) ≡ 2 ^ 64 - suc e = ground arith in
      let failed : (suc e == 0) ≡ false = ground arith in
      let run : retval sys index pid value (suc e) s
          ≡ (pos 0, after s rax (sext32 (2 ^ 32 - u32 (suc e)))) =
        rw failed (write_word_user-reg s rax _) in
      let w : reg64 l words rax ≡ 2 ^ 64 - suc e =
        h rax
        ∙ ap (λ x. regs x.1.kernel rax) run
        ∙ poke.stored (record s { errno = 0 }) rax _ (rw minus (omega arith))
        ∙ minus in
      (
        ap (λ x. x.0) run,
        rw failed (retval_error nerrnos n l words len (suc e) k b (omega arith) q w),
      )

  -- On x86-64 in the x86-64 and x32 ABIs: after pink_write_argument has stored a value as one of
  -- the six arguments, and the registers are read into a register set, pink_read_argument gives
  -- that value for that argument.
  pub argument-argument :
      (l : Layout) (words : ℕ → ℕ) (len abi i v : ℕ) (r : Reg) (s : State K)
      → (abi ≡ abi_x86_64) ⊎ (abi ≡ abi_x32)
      → argument_reg i ≡ some r
      → i < 6
      → v < 2 ^ 64
      → ((q : Reg) → reg64 l words q ≡ regs (after s r v).kernel q)
      → (argument sys index pid abi i v s ≡ some (pos 0, after s r v))
        × (Read.argument l (in_abi words len abi) i ≡ some (pos 0, some v))
  unfolding argument at_reg
  argument-argument l words len abi i v r s a g b w h =
      let small : leb 6 i ≡ false = ground arith in
      let other : (abi == abi_i386) ≡ false = ground arith in
      let long : (abi == abi_x32 || abi == abi_x86_64) ≡ true = ground arith in
      let back : reg64 l words r ≡ v = h r ∙ poke.stored (record s { errno = 0 }) r v w in
      (
        rw (small, other, long, g, write_word_user-reg s r v),
        argument-reg64 [] 0 l words len i abi r (ground arith) b (sym (argument_reg_same i) ∙ g)
            ∙ ap (λ x. some (pos 0, some x)) back,
      )

  -- In the i386 ABI on Linux, where the registers are then converted to 32-bit ones, as
  -- pink_regset_fill does: pink_read_argument gives the value that pink_write_argument stored,
  -- with its low half sign-extended.
  pub argument-argument_i386 :
      (l : Layout) (words out : ℕ → ℕ) (len i v : ℕ) (r : Reg) (s : State K)
      → Holds l words out
      → argument_reg_i386 i ≡ some r
      → i < 6
      → v < 2 ^ 64
      → ((q : Reg) → reg64 l words q ≡ regs (after s r v).kernel q)
      → (argument sys index pid abi_i386 i v s ≡ some (pos 0, after s r v))
        × (Read.argument l (in_abi out len abi_i386) i ≡ some (pos 0, some (sext32 v)))
  unfolding argument at_reg
  argument-argument_i386 l words out len i v r s c g b w h =
      let small : leb 6 i ≡ false = ground arith in
      let back : reg64 l words r ≡ v = h r ∙ poke.stored (record s { errno = 0 }) r v w in
      let (q, e, f) = i386_pair l words out i c b in
      let r_eq : get_or rbx (argument_reg_i386 i) ≡ r = ap (get_or rbx) g in
      let half : reg32 out q ≡ u32 v = f ∙ ap (λ x. u32 (reg64 l words x)) r_eq ∙ ap u32 back in
      let low : u32 (u32 v) ≡ u32 v = omega arith in
      (
        rw (small, g, write_word_user-reg s r v),
        argument-reg32 [] 0 l out len i q b e
            ∙ ap (λ x. some (pos 0, some (sext32 x))) half
            ∙ ap (λ x. some (pos 0, some (if ltb x (2 ^ 31) then x else x + (2 ^ 64 - 2 ^ 32))))
                low,
      )
