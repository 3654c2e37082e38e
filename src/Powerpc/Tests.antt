-- ===== src/Powerpc/Tests.antt =====
-- A PowerPC tracee of which the user area can be written.
use pinktrace.Prelude.{
  ℕ, ◌+◌, ◌-◌, ◌*◌, ◌^◌, ◌≡◌, refl, arith, true, false, some, [], ◌∷◌, ◌==◌, if◌then◌else◌, pos,
}
use pinktrace.System.{Request, State, PtraceCall, efault}
use pinktrace.Trace.{Have, minus_one, get_regs}
use pinktrace.Word.UserArea.{UserArea}
use pinktrace.Powerpc.{Index, PtRegs, Regset, fill, retval, write_retval}
use pinktrace.Powerpc.Retval.{fill-retval}
use pinktrace.Powerpc.Registers.{Holds, IsLinux, write_retval-retval}

abbrev Words : Type 0
Words = ℕ → ℕ

abbrev put : Words → (off v : ℕ) → Words
put k off v i = if i == off then v else k i

abbrev user_only : PtraceCall Words
user_only Request.peekuser pid off w s = (s.kernel off, s)
user_only Request.pokeuser pid off v s = (0, record s { kernel = put s.kernel off v })
user_only Request.getregs pid addr w s = (0, s)
user_only _ pid off w s = (minus_one, record s { errno = efault })

user_only-UserArea : UserArea user_only 1 (λ k. k)
user_only-UserArea = record {
  peeks = λ s off. refl;
  poked = put;
  pokes = λ s off v. refl;
  stored = λ k off v. let e : (off == off) ≡ true = ground arith in rw e;
  kept = λ k off v i h. let e : (i == off) ≡ false = ground (arith, h) in rw e;
}

abbrev index : Index
index = record { pt_r0 = 0; pt_r3 = 3; pt_orig_r3 = 34; pt_ccr = 38 }

index-IsLinux : IsLinux index
index-IsLinux = record { row = refl; ccr_apart = λ h. omega arith }

abbrev registers : Words → PtRegs
registers k = record { gpr = λ i. k (8 * i); orig_gpr3 = k 272; ccr = k 304; msr = 0 }

registers-Holds : (k : Words) → Holds index k (registers k)
registers-Holds k = record {
  gpr = λ i. let e : 0 + i ≡ i = omega arith in rw e;
  orig_gpr3 = refl;
  ccr = refl;
}

abbrev start : State Words
start = record { errno = 0; kernel = λ i. 2 ^ 28 }

write_retval-retval_example :
    let t = (write_retval user_only index 1 7 13 start).1 in
    ((write_retval user_only index 1 7 13 start).0 ≡ pos 0)
    × (retval (134 ∷ 134 ∷ []) (record { ppc_regs = registers t.kernel; abi = 1 })
        ≡ some (if 13 == 0 then 7 else 2 ^ 64 - 1, 13))
write_retval-retval_example =
    write_retval-retval user_only index 1 (λ k. k) user_only-UserArea index-IsLinux (134 ∷ 134 ∷ [])
      134 1 7 13 start (registers (write_retval user_only index 1 7 13 start).1.kernel)
      (omega arith) refl (omega arith) (omega arith) (omega arith) (omega arith) (registers-Holds _)

-- lseek(2) that returned 2 ^ 32 - 5.
abbrev large : State Words
large = record { errno = 0; kernel = λ i. if i == 24 then 2 ^ 32 - 5 else 0 }

abbrev fresh : Regset
fresh = record { ppc_regs = registers (λ i. 0); abi = 0 }

abbrev has_getregs : Have
has_getregs = record {
  geteventmsg = false;
  getregs = true;
  setregs = false;
  getregset = false;
  setregset = false;
  getsiginfo = false;
  setup = false;
  sysemu = false;
  seize = false;
  interrupt = false;
  listen = false;
  tkill = false;
  tgkill = false;
}

abbrev filled : Regset
filled = (fill user_only (λ k p. registers k) has_getregs 1 0 fresh large).0.1

fill-retval_example : retval (134 ∷ 134 ∷ []) filled ≡ some (2 ^ 32 - 5, 0)
unfolding fill get_regs
fill-retval_example =
    fill-retval (134 ∷ 134 ∷ []) 134 (omega arith) (omega arith) user_only (λ k p. registers k)
      has_getregs 1 0 fresh large (2 ^ 32 - 5) 0 refl (omega arith) (omega arith) refl refl
