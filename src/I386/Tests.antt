-- ===== src/I386/Tests.antt =====
-- An i386 tracee of which the registers can be written.
use pinktrace.Prelude.{◌-◌, ◌*◌, ◌^◌, ◌≡◌, refl, arith, some, [], ◌∷◌, ◌==◌, if◌then◌else◌, pos}
use pinktrace.System.{State}
use pinktrace.Regset.{place}
use pinktrace.Word.Narrow.Tests.{Words, word, user_and_data, user_and_data-UserWords}
use pinktrace.I386.{Regset, retval, write_retval, write_argument}
use pinktrace.I386.Registers.{Holds, final, retval-write_retval}

abbrev registers : Words → Regset
registers k = record { i386_regs = λ g. word k (4 * place g); abi = 0 }

registers-Holds : (k : Words) → Holds place (word k) (registers k)
registers-Holds k g = refl

abbrev start : State Words
start = record { errno = 0; kernel = λ i. 7 }

retval-write_retval_example :
    let t = (write_retval user_and_data place 1 9 13 start).1 in
    ((write_retval user_and_data place 1 9 13 start).0 ≡ pos 0)
    × (retval (134 ∷ []) (registers t.kernel) ≡ some (if 13 == 0 then 9 else 2 ^ 32 - 1, 13))
retval-write_retval_example =
    retval-write_retval user_and_data place 1 word user_and_data-UserWords (134 ∷ []) 134 9 13 start
      (registers (write_retval user_and_data place 1 9 13 start).1.kernel) refl (omega arith)
      (omega arith) (omega arith) (omega arith)
      (registers-Holds (write_retval user_and_data place 1 9 13 start).1.kernel)

abbrev written : State Words
written = final start (write_argument user_and_data place 1 2 99 start)
