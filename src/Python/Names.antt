-- ===== src/Python/Names.antt =====
-- Names and numbers of system calls, errors and signals, as Python has them.
use Prim.Native.String.{String}
use pinktrace.Prelude.{ℕ, ◌≡◌, ◌≢◌, refl, arith, Option, none, some, ℤ, pos, get_or}
use pinktrace.Abi.{Arch}
use pinktrace.Name
use pinktrace.Name.{Build}
use pinktrace.Name.Builds.{build_of}
use pinktrace.Name.Architectures.{
  lookup_syscall-build_of, lookup_errno-build_of, lookup_signal-build_of,
}
use pinktrace.Python.{py_int, py_str, pink_check_null, pink_check_lookup}
use pinktrace.Python.Name.{
  named_or_error, found_or_error, pinkpy_name_syscall, pinkpy_lookup_syscall, pinkpy_name_errno,
  pinkpy_lookup_errno, pinkpy_name_signal, pinkpy_lookup_signal,
}

-- The name in a result that is a string.
named_or_error-name :
    (name : Option String) (s : String)
    → named_or_error name ≡ (some (py_str s), none)
    → name ≡ some s
unfolding pink_check_null
named_or_error-name none s e = ground (arith, e)
named_or_error-name (some t) s e = ground (arith, e)

found_or_error-found :
    (r : ℤ) (n : ℕ) → r ≡ pos n → found_or_error r ≡ (some (py_int (pos n)), none)
unfolding pink_check_lookup
found_or_error-found r n e = rw e refl

module _ (a : Arch) (s : String) (n : ℕ) (abi : Option ℤ) where
  -- In Python, on every architecture but ia64, for each of its ABIs and for the default one: the name
  -- that name.name_syscall gives for a number is looked up by name.lookup_syscall as that number.
  pub pinkpy_lookup_syscall-pinkpy_name_syscall :
      a ≢ Arch.ia64
      → pinkpy_name_syscall (build_of a) (some (n, abi)) ≡ (some (py_str s), none)
      → pinkpy_lookup_syscall (build_of a) (some (s, abi)) ≡ (some (py_int (pos n)), none)
  unfolding pinkpy_name_syscall pinkpy_lookup_syscall
  pinkpy_lookup_syscall-pinkpy_name_syscall other e =
      let k = get_or (pos 0) abi in
      found_or_error-found (Name.lookup_syscall (build_of a) (some s) k) n (
        lookup_syscall-build_of a s n k other
          (named_or_error-name (Name.name_syscall (build_of a) n k) s e))

  -- So is that of an error, on every architecture.
  pub pinkpy_lookup_errno-pinkpy_name_errno :
      pinkpy_name_errno (build_of a) (some (pos n, abi)) ≡ (some (py_str s), none)
      → pinkpy_lookup_errno (build_of a) (some (s, abi)) ≡ (some (py_int (pos n)), none)
  unfolding pinkpy_name_errno pinkpy_lookup_errno
  pinkpy_lookup_errno-pinkpy_name_errno e =
      let k = get_or (pos 0) abi in
      found_or_error-found (Name.lookup_errno (build_of a) (some s) k) n (
        lookup_errno-build_of a s n k
          (named_or_error-name (Name.name_errno (build_of a) (pos n) k) s e))

  -- And that of a signal.
  pub pinkpy_lookup_signal-pinkpy_name_signal :
      pinkpy_name_signal (build_of a) (some (pos n, abi)) ≡ (some (py_str s), none)
      → pinkpy_lookup_signal (build_of a) (some (s, abi)) ≡ (some (py_int (pos n)), none)
  unfolding pinkpy_name_signal pinkpy_lookup_signal
  pinkpy_lookup_signal-pinkpy_name_signal e =
      let k = get_or (pos 0) abi in
      found_or_error-found (Name.lookup_signal (build_of a) (some s) k) n (
        lookup_signal-build_of a s n k
          (named_or_error-name (Name.name_signal (build_of a) (pos n) k) s e))
