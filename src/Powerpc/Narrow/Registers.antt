-- ===== src/Powerpc/Narrow/Registers.antt =====
-- What pinktrace/write.c stores in the registers of a tracee on 32-bit PowerPC, pinktrace/read.c
-- reads back.
use pinktrace.Prelude.{
  ℕ, ◌-◌, ◌*◌, ◌%◌, ◌^◌, ◌≤◌, ◌<◌, ◌≡◌, ◌≢◌, refl, sym, arith, ap, ◌∙◌, true, false, some, List,
  ◌==◌, if◌then◌else◌, ltb, get_elem?, pos, inl, inr, Bool-cases,
}
use pinktrace.System.{State, PtraceCall, ◌>>=◌}
use pinktrace.Abi.{Arch, sizeof_long}
use pinktrace.Word.Narrow.{neg32, UserWords, peek_user-area, poke_user-area}
use pinktrace.Read.{is_negated_errno}
use pinktrace.Read.Negated.{negated_narrow}
use pinktrace.Powerpc.{Regset, Index, has_so, set_so, clear_so}
use pinktrace.Powerpc.Retval.{has_so-clear_so, has_so-set_so}
use pinktrace.Powerpc.Narrow.{retval, write_retval}

-- The test on 32 bits.
is_negated_errno-powerpc :
    (nerrnos : List ℕ) (n val abi : ℕ)
    → get_elem? nerrnos abi ≡ some n
    → n < 2 ^ 31
    → is_negated_errno Arch.powerpc nerrnos val abi ≡ some (ltb (neg32 n) val)
is_negated_errno-powerpc nerrnos n val abi k b =
    let max : (2 ^ 32 - n) % 2 ^ 32 ≡ neg32 n = omega arith in
    negated_narrow Arch.powerpc nerrnos n val abi (unfold sizeof_long in refl) k
    ∙ ap (λ m. some (ltb m val)) max

-- A value under a clear flag.
retval-value :
    (nerrnos : List ℕ) (n : ℕ) (r : Regset)
    → get_elem? nerrnos r.abi ≡ some n
    → 0 < n
    → n < 2 ^ 31
    → has_so r.ppc_regs.ccr ≡ false
    → r.ppc_regs.gpr 3 ≤ 2 ^ 32 - n
    → retval nerrnos r ≡ some (r.ppc_regs.gpr 3, 0)
unfolding retval
retval-value nerrnos n r k p b flag v =
    let below : ltb (neg32 n) (r.ppc_regs.gpr 3) ≡ false = ground arith in
    rw (retval, flag, is_negated_errno-powerpc nerrnos n (r.ppc_regs.gpr 3) r.abi k b, below)
      (rw flag refl)

-- An error under a set flag.
retval-error :
    (nerrnos : List ℕ) (n : ℕ) (r : Regset)
    → get_elem? nerrnos r.abi ≡ some n
    → n < 2 ^ 31
    → has_so r.ppc_regs.ccr ≡ true
    → 0 < r.ppc_regs.gpr 3
    → r.ppc_regs.gpr 3 < n
    → retval nerrnos r ≡ some (2 ^ 32 - 1, r.ppc_regs.gpr 3)
unfolding retval
retval-error nerrnos n r k b flag p q =
    let e = r.ppc_regs.gpr 3 in
    let above : ltb (neg32 n) (neg32 e) ≡ true = ground arith in
    let back : neg32 (neg32 e) ≡ e = omega arith in
    rw (retval, flag, is_negated_errno-powerpc nerrnos n (neg32 e) r.abi k b, above)
      (rw (flag, back) refl)

-- What is read from the two registers.
read_back :
    (nerrnos : List ℕ) (n value error : ℕ) (r : Regset) (flags : ℕ)
    → get_elem? nerrnos r.abi ≡ some n
    → 0 < n
    → n < 2 ^ 31
    → error < n
    → value ≤ 2 ^ 32 - n
    → r.ppc_regs.gpr 3 ≡ (if error == 0 then value else error)
    → r.ppc_regs.ccr ≡ (if error == 0 then clear_so flags else set_so flags)
    → retval nerrnos r ≡ some (if error == 0 then value else 2 ^ 32 - 1, error)
read_back nerrnos n value error r flags k p b q v held flagged = elim (Bool-cases (error == 0)) [
  | inl none_set ↦
      let e : error ≡ 0 = ground arith in
      let is_value : r.ppc_regs.gpr 3 ≡ value = rw none_set at held in
      let cleared : r.ppc_regs.ccr ≡ clear_so flags = rw none_set at flagged in
      let flag = ap has_so cleared ∙ has_so-clear_so flags in
      rw none_set (
        retval-value nerrnos n r k p b flag (omega (arith, is_value, v))
        ∙ ap (λ x. some (x, 0)) is_value
        ∙ ap (λ x. some (value, x)) (sym e))
  | inr some_set ↦
      let is_error : r.ppc_regs.gpr 3 ≡ error = rw some_set at held in
      let set : r.ppc_regs.ccr ≡ set_so flags = rw some_set at flagged in
      let flag = ap has_so set ∙ has_so-set_so flags in
      let positive : 0 < error = ground arith in
      rw some_set (
        retval-error nerrnos n r k b flag (omega (arith, is_error, positive))
          (omega (arith, is_error, q))
        ∙ ap (λ x. some (2 ^ 32 - 1, x)) is_error)
]

module _ {K : Type 0} (sys : PtraceCall K) (index : Index) (pid : ℕ) (area : K → ℕ → ℕ)
    (user : UserWords sys pid area) (apart : 4 * index.pt_r3 ≢ 4 * index.pt_ccr) where
  new_flags : (error : ℕ) → K → ℕ
  new_flags error k =
      if error == 0
      then clear_so (area k (4 * index.pt_ccr))
      else set_so (area k (4 * index.pt_ccr))

  new_flags-small : (error : ℕ) (k : K) → new_flags error k < 2 ^ 32
  unfolding new_flags
  new_flags-small error k = ground (arith, user.small k (4 * index.pt_ccr))

  -- The kernel after both words are written.
  after : (value error : ℕ) → K → K
  unfolding new_flags
  after value error k =
      user.poked (user.poked k (4 * index.pt_r3) (if error == 0 then value else error))
        (4 * index.pt_ccr) (new_flags error k)

  write_retval-after :
      (value error : ℕ) (s : State K)
      → write_retval sys index pid value error s
        ≡ (pos 0, record { errno = 0; kernel = after value error s.kernel })
  unfolding write_retval after new_flags
  write_retval-after value error s =
      let s0 : State K = record s { errno = 0 } in
      let v = if error == 0 then value else error in
      let s1 : State K = record { errno = 0; kernel = user.poked s.kernel (4 * index.pt_r3) v } in
      rw
        (
          write_retval,
          ◌>>=◌,
          peek_user-area sys pid area user s (4 * index.pt_ccr),
          poke_user-area sys pid area user s0 (4 * index.pt_r3) v,
          poke_user-area sys pid area user s1 (4 * index.pt_ccr) _,
        )
        refl

  -- On 32-bit PowerPC, where the return value and the flags stand apart: after pink_write_retval has
  -- stored a value or an error, a register set that holds these two words of the user area gives, by
  -- pink_read_retval, that error with -1, or that value without an error, whatever the flags were.
  -- The error is 0 or one below the number of errors; the value is none of the negated ones.
  pub retval-write_retval_flags :
      (nerrnos : List ℕ) (n value error : ℕ) (s : State K) (r : Regset)
      → get_elem? nerrnos r.abi ≡ some n
      → 0 < n
      → n < 2 ^ 31
      → error < n
      → value ≤ 2 ^ 32 - n
      → r.ppc_regs.gpr 3
        ≡ area (write_retval sys index pid value error s).1.kernel (4 * index.pt_r3)
      → r.ppc_regs.ccr ≡ area (write_retval sys index pid value error s).1.kernel (4 * index.pt_ccr)
      → ((write_retval sys index pid value error s).0 ≡ pos 0)
        × (retval nerrnos r ≡ some (if error == 0 then value else 2 ^ 32 - 1, error))
  unfolding after new_flags
  retval-write_retval_flags nerrnos n value error s r k p b q v gpr3 ccr =
      let run = write_retval-after value error s in
      let stored = if error == 0 then value else error in
      let small : stored < 2 ^ 32 = ground arith in
      let flags = new_flags error s.kernel in
      let k1 = user.poked s.kernel (4 * index.pt_r3) stored in
      let held : r.ppc_regs.gpr 3 ≡ stored =
        gpr3
        ∙ ap (λ x. area x.1.kernel (4 * index.pt_r3)) run
        ∙ user.kept k1 (4 * index.pt_ccr) flags (4 * index.pt_r3) apart
        ∙ user.stored s.kernel (4 * index.pt_r3) stored small in
      let flagged : r.ppc_regs.ccr ≡ flags =
        ccr
        ∙ ap (λ x. area x.1.kernel (4 * index.pt_ccr)) run
        ∙ user.stored k1 (4 * index.pt_ccr) flags (new_flags-small error s.kernel) in
      (
        ap (λ x. x.0) run,
        read_back nerrnos n value error r (area s.kernel (4 * index.pt_ccr)) k p b q v held flagged,
      )
