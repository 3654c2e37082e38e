-- ===== src/Arm/Tests.antt =====
-- An ARM tracee of which the registers can be written, and one at a system call of the old ABI.
use pinktrace.Prelude.{false, ◌*◌, ◌≡◌, ◌↔◌, refl, arith, some, ◌==◌, if◌then◌else◌, pos}
use pinktrace.System.{State}
use pinktrace.Word.Narrow.Tests.{
  Words, word, user_and_data, user_and_data-UserWords, user_and_data-DataWords, low,
}
use pinktrace.Arm.{Regset, Places, syscall, argument, write_argument}
use pinktrace.Arm.Syscall.{IsCall, syscall-IsCall}
use pinktrace.Arm.Registers.{Holds, arguments-write_argument}

abbrev linux : Places
linux = record { arm_r0 = 0; arm_r7 = 7; arm_ip = 12; arm_pc = 15; arm_cpsr = 16; arm_orig_r0 = 17 }

-- At the address 0 is `swi 0x900004`, and the program counter is behind it.
abbrev old_call : State Words
old_call = record { errno = 0; kernel = λ a. 0xef900004 }

abbrev stopped : Regset
stopped = record { uregs = λ i. if i == 15 then 4 else 0; abi = 0 }

syscall-IsCall_example :
    ((syscall user_and_data linux 1 stopped old_call).0 ≡ (pos 0, some 4))
    ↔ IsCall 0 false 0xef900004 4
syscall-IsCall_example =
    syscall-IsCall user_and_data 1 word (λ k. low) user_and_data-DataWords linux stopped 4 old_call
      refl refl

-- The registers as the user area has them.
abbrev registers : Words → Regset
registers k = record { uregs = λ i. word k (4 * i); abi = 0 }

registers-Holds : (k : Words) → Holds (word k) (registers k)
registers-Holds k i b = refl

arguments-write_argument_example :
    let run = write_argument user_and_data 1 0 99 old_call in
    (run.0 ≡ pos 0) × (argument linux (registers run.1.kernel) 0 ≡ (pos 0, some 99))
arguments-write_argument_example =
    arguments-write_argument user_and_data 1 word user_and_data-UserWords linux refl 0 99 0 old_call
      (registers (write_argument user_and_data 1 0 99 old_call).1.kernel) (omega arith)
      (omega arith) (omega arith)
      (registers-Holds (write_argument user_and_data 1 0 99 old_call).1.kernel)
