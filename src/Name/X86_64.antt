-- ===== src/Name/X86_64.antt =====
-- The tables of pinktrace/name.c in a build for x86-64.
use Prim.Native.String.{String}
use pinktrace.Prelude.{
  ℕ, ◌+◌, ◌-◌, ◌^◌, ◌<◌, ◌≡◌, refl, arith, some, none, ℤ, pos, ap, sym, ◌∙◌, take, drop, get_elem?,
  get_or, get_elem?-take, get_elem?-drop, lt→ltb,
}
use pinktrace.Abi.{Arch}
use pinktrace.Name.Tables.X86_64.{sysent_x86_64}
use pinktrace.Name.Tables.X32.{sysent_x32}
use pinktrace.Name.Builds.{build_of}
use pinktrace.Name.Architectures.{
  lookup_syscall-build_of, lookup_errno-build_of, lookup_signal-build_of, x86_64≢ia64,
}
use pinktrace.Name.{
  x86_64, table_of, entry, named, name_errno, lookup_errno, name_signal, lookup_signal,
  name_syscall, lookup_syscall, scno_to_place,
}

-- On x86-64, for each of the three ABIs: an error's name is looked up as the number that it names.
pub lookup_errno-x86_64 :
    (s : String) (n : ℕ) (abi : ℤ)
    → name_errno x86_64 (pos n) abi ≡ some s
    → lookup_errno x86_64 (some s) abi ≡ pos n
unfolding build_of
lookup_errno-x86_64 = lookup_errno-build_of Arch.x86_64

-- On x86-64, for each of the three ABIs: a signal's name is looked up as the number that it names.
pub lookup_signal-x86_64 :
    (s : String) (n : ℕ) (abi : ℤ)
    → name_signal x86_64 (pos n) abi ≡ some s
    → lookup_signal x86_64 (some s) abi ≡ pos n
unfolding build_of
lookup_signal-x86_64 = lookup_signal-build_of Arch.x86_64

-- On x86-64, for each of the three ABIs: a system call's name is looked up as the number that it
-- names.
pub lookup_syscall-x86_64 :
    (s : String) (n : ℕ) (abi : ℤ)
    → name_syscall x86_64 n abi ≡ some s
    → lookup_syscall x86_64 (some s) abi ≡ pos n
unfolding build_of
lookup_syscall-x86_64 s n abi = lookup_syscall-build_of Arch.x86_64 s n abi x86_64≢ia64

shifted_window : take 25 (drop 247 sysent_x32) ≡ take 25 (drop 248 sysent_x86_64)
unfolding sysent_x32 sysent_x86_64
shifted_window = refl

shifted : (i : ℕ) → i < 25 → get_elem? sysent_x32 (247 + i) ≡ get_elem? sysent_x86_64 (248 + i)
shifted i h =
    sym (get_elem?-drop 247 sysent_x32 i)
    ∙ sym (get_elem?-take 25 (drop 247 sysent_x32) i h)
    ∙ ap (λ t. get_elem? t i) shifted_window
    ∙ get_elem?-take 25 (drop 248 sysent_x86_64) i h
    ∙ get_elem?-drop 248 sysent_x86_64 i

-- In the x32 table the entries from 244 on stand one place too low: the numbers 248 to 272, which
-- x32 shares with x86-64, have their names at the number below.
pub name_syscall_x32_shifted :
    (n : ℕ)
    → 247 < n
    → n < 273
    → name_syscall x86_64 (n - 1) (pos 2) ≡ name_syscall x86_64 n (pos 0)
unfolding name_syscall scno_to_place x86_64 named table_of entry
name_syscall_x32_shifted n h k =
    rw (lt→ltb (n - 1) (2 ^ 63) (omega arith), lt→ltb n (2 ^ 63) (omega arith))
      (ap (get_or none) same)
  where
    same : get_elem? sysent_x32 (n - 1) ≡ get_elem? sysent_x86_64 n
    same =
        let e : 247 + (n - 248) ≡ n - 1 = omega arith in
        let f : 248 + (n - 248) ≡ n = omega arith in
        ap (get_elem? sysent_x32) (sym e)
        ∙ shifted (n - 248) (omega arith)
        ∙ ap (get_elem? sysent_x86_64) f
