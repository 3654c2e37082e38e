-- ===== src/Powerpc/Registers.antt =====
-- What pinktrace/write.c stores in the registers of a PowerPC tracee, pinktrace/read.c reads back.
use mathlib.Core.Path.{subst}
use pinktrace.Prelude.{
  ℕ, zero, suc, ◌+◌, ◌-◌, ◌*◌, ◌^◌, ◌<◌, ◌≡◌, ◌≢◌, refl, arith, ap, ◌∙◌, false, some, List, ◌==◌,
  if◌then◌else◌, leb, get_elem?, pos, sext32,
}
use pinktrace.System.{State, PtraceCall, ◌>>=◌}
use pinktrace.Word.UserArea.{UserArea, read_word_user-area, write_word_user-area}
use pinktrace.Powerpc.{
  PtRegs, Index, set_so, clear_so, retval, argument, write_retval, write_argument,
}
use pinktrace.Powerpc.Retval.{IsValue, read_back}

-- A register set that holds the words of the user area.
pub record Holds (index : Index) (words : ℕ → ℕ) (regs : PtRegs) : Type 0 where
  pub gpr : (i : ℕ) → regs.gpr i ≡ words (8 * (index.pt_r0 + i))
  pub orig_gpr3 : regs.orig_gpr3 ≡ words (8 * index.pt_orig_r3)
  pub ccr : regs.ccr ≡ words (8 * index.pt_ccr)

-- Linux has the registers in a row, and the other two apart from them.
pub record IsLinux (index : Index) : Type 0 where
  pub row : index.pt_r3 ≡ index.pt_r0 + 3
  pub ccr_apart : 8 * index.pt_r3 ≢ 8 * index.pt_ccr

module _ {K : Type 0} (sys : PtraceCall K) (index : Index) (pid : ℕ) (area : K → ℕ → ℕ)
    (user : UserArea sys pid area) (linux : IsLinux index) where
  -- The flags with the mask set or cleared.
  new_flags : (error : ℕ) → K → ℕ
  new_flags error k =
      if error == 0
      then clear_so (area k (8 * index.pt_ccr))
      else set_so (area k (8 * index.pt_ccr))

  -- The kernel after both words are written.
  after : (value error : ℕ) → K → K
  unfolding new_flags
  after value error k =
      user.poked (user.poked k (8 * index.pt_r3) (if error == 0 then value else sext32 error))
        (8 * index.pt_ccr) (new_flags error k)

  write_retval-after :
      (value error : ℕ) (s : State K)
      → write_retval sys index pid value error s
        ≡ (pos 0, record { errno = 0; kernel = after value error s.kernel })
  unfolding write_retval after new_flags
  write_retval-after value error s =
      let s0 : State K = record s { errno = 0 } in
      let v = if error == 0 then value else sext32 error in
      let s1 : State K = record { errno = 0; kernel = user.poked s.kernel (8 * index.pt_r3) v } in
      rw
        (
          write_retval,
          ◌>>=◌,
          read_word_user-area sys pid area user s (8 * index.pt_ccr),
          write_word_user-area sys pid area user s0 (8 * index.pt_r3) v,
          write_word_user-area sys pid area user s1 (8 * index.pt_ccr) _,
        )
        refl

  -- What the two registers hold then.
  Holds-after :
      (value error : ℕ) (k : K) (regs : PtRegs)
      → Holds index (area (after value error k)) regs
      → (regs.gpr 3 ≡ (if error == 0 then value else sext32 error)) × (regs.ccr ≡ new_flags error k)
  unfolding after
  Holds-after value error k regs holds =
      let v = if error == 0 then value else sext32 error in
      let k' = user.poked k (8 * index.pt_r3) v in
      let place : 8 * (index.pt_r0 + 3) ≡ 8 * index.pt_r3 = omega (arith, linux.row) in
      (
        holds.gpr 3
            ∙ ap (area (after value error k)) place
            ∙ user.kept k' (8 * index.pt_ccr) (new_flags error k) (8 * index.pt_r3) linux.ccr_apart
            ∙ user.stored k (8 * index.pt_r3) v,
        holds.ccr ∙ user.stored k' (8 * index.pt_ccr) (new_flags error k),
      )

  -- On 64-bit PowerPC in both ABIs: after pink_write_retval has stored a value or an error, and
  -- the registers are read into a register set, pink_read_retval gives that error with -1, or that
  -- value without an error, whatever the flags were. The error is 0 or one below the ABI's number
  -- of errors; the value is none of the negated ones, on 64 bits or on the low 32 bits.
  pub write_retval-retval :
      (nerrnos : List ℕ) (n abi value error : ℕ) (s : State K) (regs : PtRegs)
      → abi < 2
      → get_elem? nerrnos abi ≡ some n
      → 0 < n
      → n < 2 ^ 31
      → error < n
      → IsValue abi n value
      → Holds index (area (write_retval sys index pid value error s).1.kernel) regs
      → ((write_retval sys index pid value error s).0 ≡ pos 0)
        × (retval nerrnos (record { ppc_regs = regs; abi = abi })
            ≡ some (if error == 0 then value else 2 ^ 64 - 1, error))
  unfolding new_flags
  write_retval-retval nerrnos n abi value error s regs a k p b q v holds =
      let run = write_retval-after value error s in
      let (gpr3, flags) =
        Holds-after value error s.kernel regs
          (subst (λ x. Holds index (area x.1.kernel) regs) run holds) in
      (
        ap (λ x. x.0) run,
        read_back nerrnos n p b abi value error regs (area s.kernel (8 * index.pt_ccr)) a k q v gpr3
            flags,
      )

  -- On 64-bit PowerPC: after pink_write_argument has stored a value as one of the six arguments, and
  -- the registers are read into a register set, pink_read_argument gives that value for that
  -- argument. The first argument has a place of its own.
  pub write_argument-argument :
      (i v abi : ℕ) (s : State K) (regs : PtRegs)
      → i < 6
      → Holds index (area (write_argument sys index pid i v s).1.kernel) regs
      → ((write_argument sys index pid i v s).0 ≡ pos 0)
        × (argument (record { ppc_regs = regs; abi = abi }) i ≡ (pos 0, some v))
  unfolding write_argument argument
  write_argument-argument zero v abi s regs b holds =
      let run = write_word_user-area sys pid area user s (8 * index.pt_orig_r3) v in
      let back : regs.orig_gpr3 ≡ v =
        holds.orig_gpr3
        ∙ ap (λ x. area x.1.kernel (8 * index.pt_orig_r3)) run
        ∙ user.stored s.kernel _ v in
      (ap (λ x. x.0) run, ap (λ x. (pos 0, some x)) back)
  write_argument-argument (suc i) v abi s regs b holds =
      let few : leb 6 (suc i) ≡ false = ground arith in
      let later : (suc i == 0) ≡ false = ground arith in
      let off = (suc i + index.pt_r3) * 8 in
      let run : write_argument sys index pid (suc i) v s
          ≡ (pos 0, record { errno = 0; kernel = user.poked s.kernel off v }) =
        rw (few, later) (write_word_user-area sys pid area user s off v) in
      let place : 8 * (index.pt_r0 + (suc i + 3)) ≡ off = omega (arith, linux.row) in
      let back : regs.gpr (suc i + 3) ≡ v =
        holds.gpr (suc i + 3)
        ∙ ap (λ x. area x.1.kernel (8 * (index.pt_r0 + (suc i + 3)))) run
        ∙ ap (area (user.poked s.kernel off v)) place
        ∙ user.stored s.kernel off v in
      (ap (λ x. x.0) run, rw (few, later) (ap (λ x. (pos 0, some x)) back))
