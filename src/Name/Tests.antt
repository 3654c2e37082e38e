-- ===== src/Name/Tests.antt =====
-- Look-ups of pinktrace/name.c, and its theorems at entries of the x86-64 tables.
use Prim.Native.String.{String}
use pinktrace.Prelude.{
  arith, ℕ, ◌≡◌, refl, arith, Option, some, none, List, [], ◌∷◌, pos, ◌||◌, if◌then◌else◌,
}
use pinktrace.Name.{
  Build, shuffled, x86_64, name_errno, lookup_errno, lookup_signal, name_syscall, lookup_syscall,
  shuffle_scno, name_socket_family, find, scan, named, found, scno_to_place, place_to_scno, defined,
}
use text.Mathlib.Text.{◌==◌}
use pinktrace.Name.Tables.Families.{family_names}
use pinktrace.Abi.{Arch}
use pinktrace.Name.Builds.{build_of}
use pinktrace.Name.Architectures.{lookup_syscall-build_of}
use pinktrace.Name.X86_64.{name_syscall_x32_shifted}

enoent : lookup_errno x86_64 (some "ENOENT") (pos 1) ≡ pos 2
unfolding x86_64 lookup_errno find scan found
enoent = refl

enoent_named : name_errno x86_64 (pos 2) (pos 1) ≡ some "ENOENT"
unfolding x86_64 name_errno named
enoent_named = refl

sigkill : lookup_signal x86_64 (some "SIGKILL") (pos 2) ≡ pos 9
unfolding x86_64 lookup_signal find scan found
sigkill = refl

cacheflush_named : name_syscall (build_of Arch.aarch64) 0xf0002 (pos 1) ≡ some "cacheflush"
unfolding build_of name_syscall named scno_to_place shuffle_scno
cacheflush_named = refl

lookup_syscall-build_of_example :
    lookup_syscall (build_of Arch.aarch64) (some "cacheflush") (pos 1) ≡ pos 0xf0002
lookup_syscall-build_of_example =
    lookup_syscall-build_of Arch.aarch64 "cacheflush" 0xf0002 (pos 1) (λ h. cc) cacheflush_named

-- A build with one table of three entries and a shuffle that starts at 1.
abbrev small_table : List (Option String)
small_table = some "read" ∷ some "cmpxchg" ∷ some "breakpoint" ∷ []

abbrev small_build : Build
small_build = record {
  sysent_vec = small_table ∷ [];
  errnoent_vec = [];
  signalent_vec = [];
  numbering = shuffled 1 5;
}

-- Two names for one number, and one other family.
abbrev few_families : String → Option ℕ
few_families s =
    if s == "AF_UNIX" || s == "AF_LOCAL" then some 1 else if s == "AF_INET" then some 2 else none

af_local : name_socket_family few_families (pos 1) ≡ some "AF_LOCAL"
unfolding name_socket_family defined family_names
af_local = refl

name_syscall_x32_shifted_example : name_syscall x86_64 256 (pos 2) ≡ name_syscall x86_64 257 (pos 0)
name_syscall_x32_shifted_example = name_syscall_x32_shifted 257 (omega arith) (omega arith)

openat_x32 : lookup_syscall x86_64 (some "openat") (pos 2) ≡ pos 256
unfolding x86_64 lookup_syscall find scan found place_to_scno
openat_x32 = refl
