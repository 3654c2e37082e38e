-- ===== src/I386/Registers.antt =====
-- What pinktrace/write.c stores in the registers of an i386 tracee, pinktrace/read.c reads back.
use pinktrace.Prelude.{
  ℕ, zero, suc, ◌-◌, ◌*◌, ◌^◌, ◌%◌, ◌≤◌, ◌<◌, ◌≡◌, refl, sym, arith, ap, ◌∙◌, true, false, Option,
  none, some, List, ◌==◌, if◌then◌else◌, leb, ltb, get_elem?, pos, inl, inr, Bool-cases,
}
use pinktrace.System.{State, PtraceCall}
use pinktrace.Abi.{Arch, sizeof_long}
use pinktrace.Regset.{Reg32, ebx, ecx, edx, esi, edi, ebp, eax}
use pinktrace.Word.Narrow.{neg32, UserWords, poke_user-area}
use pinktrace.Read.{is_negated_errno}
use pinktrace.Read.Negated.{negated_narrow}
use pinktrace.I386.{at_reg, Regset, retval, argument, argument_reg, write_retval, write_argument}

-- A register set that holds the words of the user area.
abbrev pub Holds : (index : Reg32 → ℕ) → (words : ℕ → ℕ) → Regset → Type 0
Holds index words r = (g : Reg32) → r.i386_regs g ≡ words (4 * index g)

-- The state that a run has returned with.
abbrev pub final : {K A : Type 0} → State K → Option (A × State K) → State K
final s none = s
final s (some (a, t)) = t

-- The test on 32 bits.
is_negated_errno-i386 :
    (nerrnos : List ℕ) (n val abi : ℕ)
    → get_elem? nerrnos abi ≡ some n
    → n < 2 ^ 31
    → is_negated_errno Arch.i386 nerrnos val abi ≡ some (ltb (neg32 n) val)
is_negated_errno-i386 nerrnos n val abi k b =
    let max : (2 ^ 32 - n) % 2 ^ 32 ≡ neg32 n = omega arith in
    negated_narrow Arch.i386 nerrnos n val abi (unfold sizeof_long in refl) k
    ∙ ap (λ m. some (ltb m val)) max

retval-value :
    (nerrnos : List ℕ) (n : ℕ) (r : Regset)
    → get_elem? nerrnos r.abi ≡ some n
    → 0 < n
    → n < 2 ^ 31
    → r.i386_regs eax ≤ 2 ^ 32 - n
    → retval nerrnos r ≡ some (r.i386_regs eax, 0)
unfolding retval
retval-value nerrnos n r k p b v =
    let below : ltb (neg32 n) (r.i386_regs eax) ≡ false = ground arith in
    rw (retval, is_negated_errno-i386 nerrnos n (r.i386_regs eax) r.abi k b, below) refl

retval-error :
    (nerrnos : List ℕ) (n e : ℕ) (r : Regset)
    → get_elem? nerrnos r.abi ≡ some n
    → n < 2 ^ 31
    → 0 < e
    → e < n
    → r.i386_regs eax ≡ 2 ^ 32 - e
    → retval nerrnos r ≡ some (2 ^ 32 - 1, e)
unfolding retval
retval-error nerrnos n e r k b p q v =
    let above : ltb (neg32 n) (r.i386_regs eax) ≡ true = ground arith in
    let back : neg32 (r.i386_regs eax) ≡ e = omega arith in
    rw (retval, is_negated_errno-i386 nerrnos n (r.i386_regs eax) r.abi k b, above, back) refl

argument_reg-known : (i : ℕ) → i < 6 → (g : Reg32) × (argument_reg i ≡ some g)
unfolding argument_reg
argument_reg-known zero b = (ebx, refl)
argument_reg-known (suc zero) b = (ecx, refl)
argument_reg-known (suc (suc zero)) b = (edx, refl)
argument_reg-known (suc (suc (suc zero))) b = (esi, refl)
argument_reg-known (suc (suc (suc (suc zero)))) b = (edi, refl)
argument_reg-known (suc (suc (suc (suc (suc zero))))) b = (ebp, refl)
argument_reg-known (suc (suc (suc (suc (suc (suc i)))))) b = absurd (omega arith)

module _ {K : Type 0} (sys : PtraceCall K) (index : Reg32 → ℕ) (pid : ℕ) (area : K → ℕ → ℕ)
    (user : UserWords sys pid area) where
  -- On i386: after pink_write_retval has stored a value or an error, and the registers are read into a
  -- register set, pink_read_retval gives that error with -1, or that value without an error. The
  -- error is 0 or one below the number of errors; the value is none of the negated ones.
  pub retval-write_retval :
      (nerrnos : List ℕ) (n value error : ℕ) (s : State K) (r : Regset)
      → get_elem? nerrnos r.abi ≡ some n
      → 0 < n
      → n < 2 ^ 31
      → error < n
      → value ≤ 2 ^ 32 - n
      → Holds index (area (write_retval sys index pid value error s).1.kernel) r
      → ((write_retval sys index pid value error s).0 ≡ pos 0)
        × (retval nerrnos r ≡ some (if error == 0 then value else 2 ^ 32 - 1, error))
  unfolding write_retval
  retval-write_retval nerrnos n value error s r k p b q v holds =
      let stored = if error == 0 then value else neg32 error in
      let run = poke_user-area sys pid area user s (4 * index eax) stored in
      let small : stored < 2 ^ 32 = ground arith in
      let held : r.i386_regs eax ≡ stored =
        holds eax
        ∙ ap (λ x. area x.1.kernel (4 * index eax)) run
        ∙ user.stored s.kernel _ stored small in
      (
        ap (λ x. x.0) run,
        elim (Bool-cases (error == 0)) [
          | inl none_set ↦
              let e : error ≡ 0 = ground arith in
              let is_value : r.i386_regs eax ≡ value = ground (arith, held) in
              rw none_set (
                retval-value nerrnos n r k p b (omega (arith, is_value, v))
                ∙ ap (λ x. some (x, 0)) is_value
                ∙ ap (λ x. some (value, x)) (sym e))
          | inr some_set ↦
              let negative : r.i386_regs eax ≡ 2 ^ 32 - error = ground (arith, held) in
              rw some_set (retval-error nerrnos n error r k b (ground arith) q negative)
        ],
      )

  -- On i386: pink_write_argument stores a value as one of the six arguments, and once the registers
  -- are read into a register set, pink_read_argument gives that value for that argument.
  pub argument-write_argument :
      (i v : ℕ) (s : State K) (r : Regset)
      → i < 6
      → v < 2 ^ 32
      → Holds index (area (final s (write_argument sys index pid i v s)).kernel) r
      → (write_argument sys index pid i v s
          ≡ some (pos 0, final s (write_argument sys index pid i v s)))
        × (argument r i ≡ some (pos 0, some v))
  unfolding write_argument argument at_reg
  argument-write_argument i v s r b small holds =
      let few : leb 6 i ≡ false = ground arith in
      let (g, found) = argument_reg-known i b in
      let off = 4 * index g in
      let t : State K = record { errno = 0; kernel = user.poked s.kernel off v } in
      let run : write_argument sys index pid i v s ≡ some (pos 0, t) =
        rw (write_argument, few, found, poke_user-area sys pid area user s off v) refl in
      let held : r.i386_regs g ≡ v =
        holds g ∙ ap (λ x. area (final s x).kernel off) run ∙ user.stored s.kernel off v small in
      (run ∙ ap (λ x. some (pos 0, final s x)) (sym run), rw (argument, few, found, held) refl)
