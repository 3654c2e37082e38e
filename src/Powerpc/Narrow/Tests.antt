-- ===== src/Powerpc/Narrow/Tests.antt =====
-- A tracee on 32-bit PowerPC of which the registers can be written.
use pinktrace.Prelude.{◌-◌, ◌*◌, ◌^◌, ◌≡◌, refl, arith, some, [], ◌∷◌, ◌==◌, if◌then◌else◌, pos}
use pinktrace.System.{State}
use pinktrace.Word.Narrow.Tests.{Words, word, user_and_data, user_and_data-UserWords}
use pinktrace.Powerpc.{Regset, Index}
use pinktrace.Powerpc.Narrow.{retval, write_retval}
use pinktrace.Powerpc.Narrow.Registers.{retval-write_retval_flags}

abbrev index : Index
index = record { pt_r0 = 0; pt_r3 = 3; pt_orig_r3 = 34; pt_ccr = 38 }

abbrev registers : Words → Regset
registers k = record {
  ppc_regs = record {
    gpr = λ i. word k (4 * i);
    orig_gpr3 = word k 136;
    ccr = word k 152;
    msr = 0;
  };
  abi = 0;
}

abbrev start : State Words
start = record { errno = 0; kernel = λ i. 7 }

retval-write_retval_flags_example :
    let run = write_retval user_and_data index 1 9 13 start in
    (run.0 ≡ pos 0)
    × (retval (134 ∷ []) (registers run.1.kernel) ≡ some (if 13 == 0 then 9 else 2 ^ 32 - 1, 13))
retval-write_retval_flags_example =
    retval-write_retval_flags user_and_data index 1 word user_and_data-UserWords (λ h. omega arith)
      (134 ∷ []) 134 9 13 start (registers (write_retval user_and_data index 1 9 13 start).1.kernel)
      refl (omega arith) (omega arith) (omega arith) (omega arith) refl refl
