-- ===== src/Name/Builds.antt =====
-- pinktrace/name.c with the tables and the numbering of each architecture.
use pinktrace.Prelude.{◌∷◌, [], ◌++◌, List, Option, some, take, drop}
use Prim.Native.String.{String}
use pinktrace.Abi.{Arch}
use pinktrace.Name.{Build, x86_64, plain, offset, shuffled}
use pinktrace.Name.Tables.Errno.{errnoent}
use pinktrace.Name.Tables.Signal.{signalent}
use pinktrace.Name.Tables.X86_64.{sysent_x86_64}
use pinktrace.Name.Tables.I386.{sysent_i386}
use pinktrace.Name.Tables.X32.{sysent_x32}
use pinktrace.Name.Tables.Aarch64.{sysent_aarch64}
use pinktrace.Name.Tables.Arm.{sysent_arm}
use pinktrace.Name.Tables.Powerpc.{sysent_powerpc}
use pinktrace.Name.Tables.Ia64.{sysent_ia64}
use pinktrace.Name.Tables.Ia64Signal.{signalent_ia64}

-- errnoent.h where PINK_ARCH_POWERPC is 1: error 58 has a name of its own.
unfoldable pub errnoent_powerpc : List (Option String)
unfolding errnoent
errnoent_powerpc = take 58 errnoent ++ some "EDEADLOCK" ∷ drop 59 errnoent

unfoldable pub build_of : Arch → Build
unfolding errnoent signalent errnoent_powerpc sysent_x86_64 sysent_i386 sysent_x32 sysent_aarch64
    sysent_arm sysent_powerpc sysent_ia64 signalent_ia64 x86_64
build_of Arch.x86_64 = x86_64
build_of Arch.aarch64 = record {
  sysent_vec = sysent_aarch64 ∷ sysent_arm ∷ [];
  errnoent_vec = errnoent ∷ errnoent ∷ [];
  signalent_vec = signalent ∷ signalent ∷ [];
  numbering = shuffled 388 5;
}
build_of Arch.arm = record {
  sysent_vec = sysent_arm ∷ [];
  errnoent_vec = errnoent ∷ [];
  signalent_vec = signalent ∷ [];
  numbering = shuffled 388 5;
}
build_of Arch.powerpc = record {
  sysent_vec = sysent_powerpc ∷ [];
  errnoent_vec = errnoent_powerpc ∷ [];
  signalent_vec = signalent ∷ [];
  numbering = plain;
}
build_of Arch.powerpc64 = record {
  sysent_vec = sysent_powerpc ∷ sysent_powerpc ∷ [];
  errnoent_vec = errnoent_powerpc ∷ errnoent_powerpc ∷ [];
  signalent_vec = signalent ∷ signalent ∷ [];
  numbering = plain;
}
build_of Arch.i386 = record {
  sysent_vec = sysent_i386 ∷ [];
  errnoent_vec = errnoent ∷ [];
  signalent_vec = signalent ∷ [];
  numbering = plain;
}
build_of Arch.x32 = record {
  sysent_vec = sysent_x32 ∷ sysent_i386 ∷ [];
  errnoent_vec = errnoent ∷ errnoent ∷ [];
  signalent_vec = signalent ∷ signalent ∷ [];
  numbering = plain;
}
build_of Arch.ia64 = record {
  sysent_vec = sysent_ia64 ∷ [];
  errnoent_vec = errnoent ∷ [];
  signalent_vec = signalent_ia64 ∷ [];
  numbering = offset 1024;
}
