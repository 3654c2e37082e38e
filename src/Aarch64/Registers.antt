-- ===== src/Aarch64/Registers.antt =====
-- What the AArch64 branches of pinktrace/write.c store in the registers of a tracee, those of
-- pinktrace/regset.c and pinktrace/read.c read back.
use pinktrace.Prelude.{
  ℕ, ◌-◌, ◌%◌, ◌^◌, ◌≤◌, ◌<◌, ◌≡◌, Bool-cases, refl, arith, ap, sym, ◌∙◌, inl, inr, true, false,
  some, List, ◌==◌, if◌then◌else◌, leb, get_elem?, pos, u32,
}
use pinktrace.System.{State, PtraceCall}
use pinktrace.Trace.{Have}
use pinktrace.Regset.{Regset, Blocks}
use pinktrace.Aarch64.{
  reg64, arm_size, abi_aarch64, choose_abi, fill, store, retval, argument, write_retval,
  write_argument,
}
use pinktrace.Aarch64.Words.{
  reg, set_reg, reg-set_reg, set_reg-abi, set_reg-iov_len, argument-reg, result, result_bound,
  read_back, out_of_if,
}
use pinktrace.Aarch64.Stored.{UserRegset, store-fill}

module _ {K : Type 0} (sys : PtraceCall K) (blocks : Blocks K) (put : ℕ → ℕ → (ℕ → ℕ) → K → K)
    (have : Have) (size pid regs io nt_prstatus : ℕ) (area : K → ℕ → ℕ) (bytes : K → ℕ)
    (user : UserRegset sys blocks put pid regs io nt_prstatus area bytes)
    (gets : have.getregset ≡ true) (sets : have.setregset ≡ true) (large : arm_size < size)
    (aligned : size % 8 ≡ 0) where
  write_argument-store :
      (i v : ℕ) (r : Regset) (s : State K)
      → i < 6
      → write_argument sys blocks put have size pid regs io nt_prstatus i v r s
        ≡ store sys blocks put have size pid regs io nt_prstatus (set_reg r i v) s
  unfolding write_argument set_reg
  write_argument-store i v r s b =
      let few : leb 6 i ≡ false = ground arith in
      rw few (elim (Bool-cases (r.abi == abi_aarch64)) [ inl e ↦ rw e refl | inr e ↦ rw e refl ])

  -- On AArch64 with PTRACE_GETREGSET and PTRACE_SETREGSET, for a register set with the iov_len and the ABI
  -- that pink_regset_fill leaves in it, the size of the tracee's registers and the ABI of that size:
  -- after pink_write_argument has stored a value as one of the six arguments, and
  -- pink_regset_fill has read the registers again, pink_read_argument gives that value for that
  -- argument, its low half in the ARM ABI, and for the others what it gave before. The size of struct
  -- user_pt_regs is a multiple of 8 above 72.
  pub write_argument-fill-argument :
      (i v : ℕ) (r : Regset) (s : State K)
      → i < 6
      → v < 2 ^ 64
      → r.iov_len ≡ bytes s.kernel
      → choose_abi size (bytes s.kernel) ≡ some r.abi
      → let t = write_argument sys blocks put have size pid regs io nt_prstatus i v r s in
        (t.0.0 ≡ pos 0)
        × ((q : Regset) × (u : State K) × (fill sys blocks put have size pid regs io nt_prstatus
                t.0.1 t.1
              ≡ some ((pos 0, q), u))
            × ((j : ℕ)
                → j < 6
                → argument q j ≡ (
                    if j == i
                    then (pos 0, some (if r.abi == abi_aarch64 then v else u32 v))
                    else argument r j)))
  write_argument-fill-argument i v r s b w full a =
      let new = set_reg r i v in
      let full' : new.iov_len ≡ bytes s.kernel = set_reg-iov_len r i v ∙ full in
      let a' : choose_abi size (bytes s.kernel) ≡ some new.abi = rw (set_reg-abi r i v) a in
      let (ok, (q, u, filled, same_abi, same)) =
        store-fill sys blocks put have size pid regs io nt_prstatus area bytes user gets sets large
          aligned new s full' a' in
      let run = write_argument-store i v r s b in
      (
        ap (λ x. x.0.0) run ∙ ok,
        (
          q,
          u,
          rw run filled,
          λ j c.
              let moved : reg q.abi q.words j ≡ reg r.abi new.words j =
                rw same_abi (same j c ∙ ap (λ x. reg x new.words j) (set_reg-abi r i v)) in
              argument-reg q j c
              ∙ ap (λ x. (pos 0, some x)) (moved ∙ reg-set_reg r i j v w)
              ∙ out_of_if r i j (if r.abi == abi_aarch64 then v else u32 v) c,
        ),
      )

  write_retval-store :
      (value error : ℕ) (r : Regset) (s : State K)
      → r.abi ≡ abi_aarch64
      → write_retval sys blocks put have size pid regs io nt_prstatus value error r s
        ≡ store sys blocks put have size pid regs io nt_prstatus
            (set_reg r 0 (result value error))
            s
  unfolding write_retval set_reg
  write_retval-store value error r s wide = rw wide refl

  -- On AArch64 with PTRACE_GETREGSET and PTRACE_SETREGSET, in the 64-bit ABI, for a register set with the
  -- iov_len that pink_regset_fill leaves in it: after
  -- pink_write_retval has stored a value or an error, and pink_regset_fill has read the registers
  -- again, pink_read_retval gives that error with -1, or that value without an error. The error is
  -- 0 or one below nerrnos0; the value is none of the negated ones. The size of struct user_pt_regs is
  -- a multiple of 8 above 72.
  pub write_retval-fill-retval :
      (nerrnos : List ℕ) (n value error : ℕ) (r : Regset) (s : State K)
      → get_elem? nerrnos 0 ≡ some n
      → 0 < n
      → n < 2 ^ 31
      → error < n
      → value ≤ 2 ^ 64 - n
      → r.abi ≡ abi_aarch64
      → r.iov_len ≡ bytes s.kernel
      → choose_abi size (bytes s.kernel) ≡ some r.abi
      → let t = write_retval sys blocks put have size pid regs io nt_prstatus value error r s in
        (t.0.0 ≡ pos 0)
        × ((q : Regset) × (u : State K) × (fill sys blocks put have size pid regs io nt_prstatus
                t.0.1 t.1
              ≡ some ((pos 0, q), u))
            × (retval nerrnos q ≡ some (if error == 0 then value else 2 ^ 64 - 1, error)))
  write_retval-fill-retval nerrnos n value error r s k p b q v wide full a =
      let new = set_reg r 0 (result value error) in
      let full' : new.iov_len ≡ bytes s.kernel = set_reg-iov_len r 0 (result value error) ∙ full in
      let a' : choose_abi size (bytes s.kernel) ≡ some new.abi =
        rw (set_reg-abi r 0 (result value error)) a in
      let (ok, (q', u, filled, same_abi, same)) =
        store-fill sys blocks put have size pid regs io nt_prstatus area bytes user gets sets large
          aligned new s full' a' in
      let run = write_retval-store value error r s wide in
      let abi : q'.abi ≡ 0 = same_abi ∙ set_reg-abi r 0 (result value error) ∙ wide in
      let zero_abi : new.abi ≡ 0 = set_reg-abi r 0 (result value error) ∙ wide in
      let moved : reg64 q'.words 0 ≡ result value error =
        ap (λ x. reg x q'.words 0) (sym zero_abi)
        ∙ same 0 (omega arith)
        ∙ ap (λ x. reg x new.words 0) (set_reg-abi r 0 (result value error))
        ∙ reg-set_reg r 0 0 (result value error) (result_bound n value error p v)
        ∙ (rw wide refl) in
      (
        ap (λ x. x.0.0) run ∙ ok,
        (q', u, rw run filled, read_back nerrnos n value error q' k p b q v abi moved),
      )
