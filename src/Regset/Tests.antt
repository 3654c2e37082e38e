-- ===== src/Regset/Tests.antt =====
-- Register sets of a process of each kind.
use pinktrace.Prelude.{ℕ, ◌+◌, ◌≡◌, refl, ◌==◌, if◌then◌else◌}
use pinktrace.Abi.{abi_i386}
use pinktrace.Regset.{Layout, Regset, reg64, from_regs, choose_abi}
use pinktrace.Regset.Convert.{linux_word, IsLinux, Holds, from_regs-i386}

abbrev linux : Layout
linux = record { word = linux_word; size = 216 }

linux-IsLinux : IsLinux linux
linux-IsLinux = record { word = λ r. refl; size = refl }

-- Each word is its place plus 100; the code segment and orig_rax are given.
abbrev words_of : (segment number : ℕ) → ℕ → ℕ
words_of segment number j =
    if j == 34
    then segment
    else if j == 35
    then 0
    else if j == 30
    then number
    else if j == 31
    then 0
    else j + 100

abbrev filled : Regset
filled = record { words = λ j. 0; iov_len = 0; abi = 9 }

from_regs-i386_example :
    ((choose_abi linux (from_regs linux (words_of 0x23 4) filled)).abi ≡ abi_i386)
    × Holds linux
        (words_of 0x23 4)
        (choose_abi linux (from_regs linux (words_of 0x23 4) filled)).words
from_regs-i386_example =
    from_regs-i386 linux (words_of 0x23 4) filled linux-IsLinux (unfold reg64 in refl)
