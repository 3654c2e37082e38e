-- ===== src/Name/Architectures.antt =====
-- The tables of every architecture: a name is looked up as the number that it names.
use Prim.Native.String.{String}
use pinktrace.Prelude.{
  ℕ, zero, suc, ◌-◌, ◌^◌, ◌≡◌, ◌≢◌, refl, arith, true, Option, some, List, [], ◌∷◌, ℤ, pos, negsuc,
  Bool-cases, inl, inr, ap, ltb,
}
use pinktrace.Abi.{Arch}
use pinktrace.Name.Tables.X86_64.{sysent_x86_64}
use pinktrace.Name.Tables.I386.{sysent_i386}
use pinktrace.Name.Tables.X32.{sysent_x32}
use pinktrace.Name.Tables.Aarch64.{sysent_aarch64}
use pinktrace.Name.Tables.Arm.{sysent_arm}
use pinktrace.Name.Tables.Powerpc.{sysent_powerpc}
use pinktrace.Name.Tables.Errno.{errnoent}
use pinktrace.Name.Tables.Signal.{signalent}
use pinktrace.Name.Tables.Ia64Signal.{signalent_ia64}
use pinktrace.Name.Unique.{not_in, unique, AllUnique, find_unique, negative-named}
use pinktrace.Name.Builds.{build_of, errnoent_powerpc}
use pinktrace.Name.Shuffle.{shuffle_scno_involution}
use pinktrace.Name.{
  Build, x86_64, table_of, named, found, name_errno, lookup_errno, name_signal, lookup_signal,
  name_syscall, lookup_syscall, scno_to_place, place_to_scno,
}

pub x86_64≢ia64 : Arch.x86_64 ≢ Arch.ia64
x86_64≢ia64 h = cc

AllUnique-one : (t : List (Option String)) → unique t ≡ true → AllUnique (t ∷ [])
unfolding AllUnique table_of
AllUnique-one t a (pos zero) w h = cc
AllUnique-one t a (pos (suc n)) w h = cc
AllUnique-one t a (negsuc n) w h = cc

AllUnique-cons :
    (t : List (Option String)) (vec : List (List (Option String)))
    → unique t ≡ true
    → AllUnique vec
    → AllUnique (t ∷ vec)
unfolding AllUnique table_of
AllUnique-cons t vec a u (pos zero) w h = cc
AllUnique-cons t vec a u (pos (suc n)) w h = u (pos n) w h
AllUnique-cons t vec a u (negsuc n) w h = cc

sysent_x86_64-unique : unique sysent_x86_64 ≡ true
unfolding sysent_x86_64 unique not_in
sysent_x86_64-unique = refl

sysent_i386-unique : unique sysent_i386 ≡ true
unfolding sysent_i386 unique not_in
sysent_i386-unique = refl

sysent_x32-unique : unique sysent_x32 ≡ true
unfolding sysent_x32 unique not_in
sysent_x32-unique = refl

sysent_aarch64-unique : unique sysent_aarch64 ≡ true
unfolding sysent_aarch64 unique not_in
sysent_aarch64-unique = refl

sysent_arm-unique : unique sysent_arm ≡ true
unfolding sysent_arm unique not_in
sysent_arm-unique = refl

sysent_powerpc-unique : unique sysent_powerpc ≡ true
unfolding sysent_powerpc unique not_in
sysent_powerpc-unique = refl

errnoent-unique : unique errnoent ≡ true
unfolding errnoent unique not_in
errnoent-unique = refl

errnoent_powerpc-unique : unique errnoent_powerpc ≡ true
unfolding errnoent_powerpc errnoent unique not_in
errnoent_powerpc-unique = refl

signalent-unique : unique signalent ≡ true
unfolding signalent unique not_in
signalent-unique = refl

signalent_ia64-unique : unique signalent_ia64 ≡ true
unfolding signalent_ia64 unique not_in
signalent_ia64-unique = refl

sysent_vec-AllUnique : (a : Arch) → a ≢ Arch.ia64 → AllUnique (build_of a).sysent_vec
unfolding build_of x86_64
sysent_vec-AllUnique Arch.x86_64 h =
    AllUnique-cons sysent_x86_64 _ sysent_x86_64-unique
      (AllUnique-cons sysent_i386 _ sysent_i386-unique (AllUnique-one sysent_x32 sysent_x32-unique))
sysent_vec-AllUnique Arch.aarch64 h =
    AllUnique-cons sysent_aarch64 _ sysent_aarch64-unique
      (AllUnique-one sysent_arm sysent_arm-unique)
sysent_vec-AllUnique Arch.arm h = AllUnique-one sysent_arm sysent_arm-unique
sysent_vec-AllUnique Arch.powerpc h = AllUnique-one sysent_powerpc sysent_powerpc-unique
sysent_vec-AllUnique Arch.powerpc64 h =
    AllUnique-cons sysent_powerpc _ sysent_powerpc-unique
      (AllUnique-one sysent_powerpc sysent_powerpc-unique)
sysent_vec-AllUnique Arch.i386 h = AllUnique-one sysent_i386 sysent_i386-unique
sysent_vec-AllUnique Arch.x32 h =
    AllUnique-cons sysent_x32 _ sysent_x32-unique (AllUnique-one sysent_i386 sysent_i386-unique)
sysent_vec-AllUnique Arch.ia64 h = absurd (h refl)

errnoent_vec-AllUnique : (a : Arch) → AllUnique (build_of a).errnoent_vec
unfolding build_of x86_64
errnoent_vec-AllUnique Arch.x86_64 =
    AllUnique-cons errnoent _ errnoent-unique
      (AllUnique-cons errnoent _ errnoent-unique (AllUnique-one errnoent errnoent-unique))
errnoent_vec-AllUnique Arch.aarch64 =
    AllUnique-cons errnoent _ errnoent-unique (AllUnique-one errnoent errnoent-unique)
errnoent_vec-AllUnique Arch.arm = AllUnique-one errnoent errnoent-unique
errnoent_vec-AllUnique Arch.powerpc = AllUnique-one errnoent_powerpc errnoent_powerpc-unique
errnoent_vec-AllUnique Arch.powerpc64 =
    AllUnique-cons errnoent_powerpc _ errnoent_powerpc-unique
      (AllUnique-one errnoent_powerpc errnoent_powerpc-unique)
errnoent_vec-AllUnique Arch.i386 = AllUnique-one errnoent errnoent-unique
errnoent_vec-AllUnique Arch.x32 =
    AllUnique-cons errnoent _ errnoent-unique (AllUnique-one errnoent errnoent-unique)
errnoent_vec-AllUnique Arch.ia64 = AllUnique-one errnoent errnoent-unique

signalent_vec-AllUnique : (a : Arch) → AllUnique (build_of a).signalent_vec
unfolding build_of x86_64
signalent_vec-AllUnique Arch.x86_64 =
    AllUnique-cons signalent _ signalent-unique
      (AllUnique-cons signalent _ signalent-unique (AllUnique-one signalent signalent-unique))
signalent_vec-AllUnique Arch.aarch64 =
    AllUnique-cons signalent _ signalent-unique (AllUnique-one signalent signalent-unique)
signalent_vec-AllUnique Arch.arm = AllUnique-one signalent signalent-unique
signalent_vec-AllUnique Arch.powerpc = AllUnique-one signalent signalent-unique
signalent_vec-AllUnique Arch.powerpc64 =
    AllUnique-cons signalent _ signalent-unique (AllUnique-one signalent signalent-unique)
signalent_vec-AllUnique Arch.i386 = AllUnique-one signalent signalent-unique
signalent_vec-AllUnique Arch.x32 =
    AllUnique-cons signalent _ signalent-unique (AllUnique-one signalent signalent-unique)
signalent_vec-AllUnique Arch.ia64 = AllUnique-one signalent_ia64 signalent_ia64-unique

-- A number comes back from its place.
numbering_back :
    (a : Arch) (n : ℕ)
    → a ≢ Arch.ia64
    → place_to_scno (build_of a).numbering (scno_to_place (build_of a).numbering n) ≡ n
unfolding build_of x86_64 place_to_scno scno_to_place
numbering_back Arch.x86_64 n h = refl
numbering_back Arch.aarch64 n h = shuffle_scno_involution 388 5 n (omega arith) (omega arith)
numbering_back Arch.arm n h = shuffle_scno_involution 388 5 n (omega arith) (omega arith)
numbering_back Arch.powerpc n h = refl
numbering_back Arch.powerpc64 n h = refl
numbering_back Arch.i386 n h = refl
numbering_back Arch.x32 n h = refl
numbering_back Arch.ia64 n h = absurd (h refl)

name_syscall-named :
    (b : Build) (s : String) (n : ℕ) (abi : ℤ)
    → name_syscall b n abi ≡ some s
    → named b.sysent_vec (pos (scno_to_place b.numbering n)) abi ≡ some s
unfolding name_syscall
name_syscall-named b s n abi h =
    let place = scno_to_place b.numbering n in
    elim (Bool-cases (ltb place (2 ^ 63))) [
      | inl e ↦ rw e at h
      | inr e ↦ absurd (negative-named b.sysent_vec s (2 ^ 64 - 1 - place) abi (rw e at h))
    ]

-- On every architecture but ia64, for each of its ABIs: the name of a system call is looked up as
-- the number that it names, through the shuffled numbers of ARM too.
pub lookup_syscall-build_of :
    (a : Arch) (s : String) (n : ℕ) (abi : ℤ)
    → a ≢ Arch.ia64
    → name_syscall (build_of a) n abi ≡ some s
    → lookup_syscall (build_of a) (some s) abi ≡ pos n
unfolding lookup_syscall found
lookup_syscall-build_of a s n abi h g =
    rw
      (find_unique (build_of a).sysent_vec s abi _ (sysent_vec-AllUnique a h)
        (name_syscall-named (build_of a) s n abi g))
      (ap pos (numbering_back a n h))

pub lookup_errno-build_of :
    (a : Arch) (s : String) (n : ℕ) (abi : ℤ)
    → name_errno (build_of a) (pos n) abi ≡ some s
    → lookup_errno (build_of a) (some s) abi ≡ pos n
unfolding name_errno lookup_errno found
lookup_errno-build_of a s n abi g =
    rw (find_unique (build_of a).errnoent_vec s abi n (errnoent_vec-AllUnique a) g)

pub lookup_signal-build_of :
    (a : Arch) (s : String) (n : ℕ) (abi : ℤ)
    → name_signal (build_of a) (pos n) abi ≡ some s
    → lookup_signal (build_of a) (some s) abi ≡ pos n
unfolding name_signal lookup_signal found
lookup_signal-build_of a s n abi g =
    rw (find_unique (build_of a).signalent_vec s abi n (signalent_vec-AllUnique a) g)

-- On every architecture, for each of its ABIs: the name of an error, and that of a signal, is looked
-- up as the number that it names.
pub lookup_errno-lookup_signal-build_of :
    (a : Arch) (s t : String) (n m : ℕ) (abi : ℤ)
    → name_errno (build_of a) (pos n) abi ≡ some s
    → name_signal (build_of a) (pos m) abi ≡ some t
    → (lookup_errno (build_of a) (some s) abi ≡ pos n)
      × (lookup_signal (build_of a) (some t) abi ≡ pos m)
lookup_errno-lookup_signal-build_of a s t n m abi g h =
    (lookup_errno-build_of a s n abi g, lookup_signal-build_of a t m abi h)
