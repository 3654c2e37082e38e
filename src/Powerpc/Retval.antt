-- ===== src/Powerpc/Retval.antt =====
-- Return values and the error flag of a PowerPC tracee (pinktrace/read.c), also in the register sets
-- that pinktrace/regset.c fills.
use pinktrace.Prelude.{
  ℕ, zero, suc, sym, not, ◌-◌, ◌^◌, ◌≤◌, ◌<◌, ◌≡◌, refl, arith, ap, ◌∙◌, true, false, some, List,
  ◌==◌, if◌then◌else◌, get_elem?, u32, neg64, sext32,
}
use pinktrace.System.{State, PtraceCall}
use pinktrace.Trace.{Have}
use pinktrace.Abi.{Arch, wordsize, sizeof_long, abis_supported}
use pinktrace.Read.Negated.{negated, not_negated, negated_low_half, not_negated_low_half}
use pinktrace.Read.{is_negated_errno}
use pinktrace.Powerpc.{fill, Regset, PtRegs, has_so, set_so, clear_so, retval}

pub has_so-clear_so : (flags : ℕ) → has_so (clear_so flags) ≡ false
has_so-clear_so flags = ground arith

pub has_so-set_so : (flags : ℕ) → has_so (set_so flags) ≡ true
has_so-set_so flags = ground arith

-- A value that is none of the negated errors, n of them: on 64 bits, or on the low 32 bits.
abbrev pub IsValue : (abi n value : ℕ) → Type 0
IsValue abi n value = if abi == 0 then value ≤ 2 ^ 64 - n else u32 value ≤ 2 ^ 32 - n

module _ (nerrnos : List ℕ) (n : ℕ) (p : 0 < n) (b : n < 2 ^ 31) where
  -- The test in the two ABIs.
  test_value :
      (abi value : ℕ)
      → abi < 2
      → get_elem? nerrnos abi ≡ some n
      → IsValue abi n value
      → is_negated_errno Arch.powerpc64 nerrnos value abi ≡ some false
  test_value zero value a k v =
      not_negated Arch.powerpc64 nerrnos n value 0 (unfold sizeof_long in refl) k b
        (unfold wordsize in refl) p v
  test_value (suc zero) value a k v =
      not_negated_low_half Arch.powerpc64 nerrnos n value 1 (unfold sizeof_long in refl) k b
        (unfold wordsize in refl) (unfold abis_supported in omega arith) p v
  test_value (suc (suc abi)) value a k v = ground (arith, a)

  test_error :
      (abi e value : ℕ)
      → abi < 2
      → get_elem? nerrnos abi ≡ some n
      → 0 < e
      → e < n
      → value ≡ 2 ^ 64 - e
      → is_negated_errno Arch.powerpc64 nerrnos value abi ≡ some true
  test_error zero e value a k q r v =
      negated Arch.powerpc64 nerrnos n value 0 (unfold sizeof_long in refl) k b e
        (unfold wordsize in refl) q r v
  test_error (suc zero) e value a k q r v =
      negated_low_half Arch.powerpc64 nerrnos n value 1 (unfold sizeof_long in refl) k b e
        (unfold wordsize in refl) (unfold abis_supported in omega arith) q r (omega arith)
  test_error (suc (suc abi)) e value a k q r v = ground (arith, a)

  -- What is read from the two registers.
  read_by_flag :
      (abi value error : ℕ) (regs : PtRegs)
      → abi < 2
      → get_elem? nerrnos abi ≡ some n
      → error < n
      → IsValue abi n value
      → regs.gpr 3 ≡ (if error == 0 then value else sext32 error)
      → has_so regs.ccr ≡ not (error == 0)
      → retval nerrnos (record { ppc_regs = regs; abi = abi })
        ≡ some (if error == 0 then value else 2 ^ 64 - 1, error)
  unfolding retval
  read_by_flag abi value zero regs a k q v g so =
      let fine = test_value abi value a k v in rw (retval, so, g, fine) (rw (so, g))
  read_by_flag abi value (suc e) regs a k q v g so =
      let minus : neg64 (sext32 (suc e)) ≡ 2 ^ 64 - suc e = ground arith in
      let failed = test_error abi (suc e) (2 ^ 64 - suc e) a k (omega arith) q refl in
      let wrong : (suc e == 0) ≡ false = ground arith in
      let so' : has_so regs.ccr ≡ true = so ∙ ap not wrong in
      let back : u32 (neg64 (2 ^ 64 - suc e)) ≡ suc e = omega arith in
      let g' : regs.gpr 3 ≡ sext32 (suc e) = rw wrong at g in
      rw (retval, so', g', minus, failed) (rw (so', g', minus, back, wrong))

  -- What is read after the flags were stored.
  pub read_back :
      (abi value error : ℕ) (regs : PtRegs) (flags : ℕ)
      → abi < 2
      → get_elem? nerrnos abi ≡ some n
      → error < n
      → IsValue abi n value
      → regs.gpr 3 ≡ (if error == 0 then value else sext32 error)
      → regs.ccr ≡ (if error == 0 then clear_so flags else set_so flags)
      → retval nerrnos (record { ppc_regs = regs; abi = abi })
        ≡ some (if error == 0 then value else 2 ^ 64 - 1, error)
  read_back abi value zero regs flags a k q v g f =
      read_by_flag abi value zero regs a k q v g (ap has_so f ∙ has_so-clear_so flags)
  read_back abi value (suc e) regs flags a k q v g f =
      let wrong : (suc e == 0) ≡ false = ground arith in
      let so : has_so regs.ccr ≡ true = ap has_so (rw wrong at f) ∙ has_so-set_so flags in
      read_by_flag abi value (suc e) regs a k q v g (so ∙ (rw wrong refl))

  -- On 64-bit PowerPC, after pink_regset_fill, whatever msr and the ABI of the register set before are:
  -- with SO set and a positive error number below nerrnos0 in r3, pink_read_retval gives -1 and that
  -- error; with SO clear it gives r3 without an error, for every 64-bit value but the last nerrnos0 - 1,
  -- also one of which the low half is the negation of an error.
  pub fill-retval :
      {K : Type 0} (sys : PtraceCall K) (regs_at : K → ℕ → PtRegs) (have : Have) (pid regs : ℕ)
      → (r : Regset) (s : State K) (value error : ℕ)
      → let got = (fill sys regs_at have pid regs r s).0.1 in
        get_elem? nerrnos 0 ≡ some n
        → error < n
        → value ≤ 2 ^ 64 - n
        → has_so got.ppc_regs.ccr ≡ not (error == 0)
        → got.ppc_regs.gpr 3 ≡ (if error == 0 then value else error)
        → retval nerrnos got ≡ some (if error == 0 then value else 2 ^ 64 - 1, error)
  unfolding fill
  fill-retval sys regs_at have pid regs r s value error k q v so g =
      let got = (fill sys regs_at have pid regs r s).0.1 in
      let low : sext32 error ≡ error = ground (arith, b, q) in
      read_by_flag 0 value error got.ppc_regs (omega arith) k q v
        (g ∙ ap (λ x. if error == 0 then value else x) (sym low)) so
