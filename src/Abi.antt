-- ===== src/Abi.antt =====
-- pinktrace/abi.h, pinktrace/abi.c and the word sizes of pinktrace/private.h.
use pinktrace.Prelude.{ℕ, List, [], ◌∷◌, get_elem?, get_or}

-- The architectures that configure knows (PINK_ARCH_...).
pub data Arch : Type 0 where
  aarch64 arm powerpc powerpc64 i386 x86_64 x32 ia64 : Arch

abbrev pub abi_x86_64 : ℕ
abi_x86_64 = 0

abbrev pub abi_i386 : ℕ
abi_i386 = 1

abbrev pub abi_x32 : ℕ
abi_x32 = 2

-- PINK_ABIS_SUPPORTED
unfoldable pub abis_supported : Arch → ℕ
abis_supported aarch64 = 2
abis_supported x86_64 = 3
abis_supported x32 = 2
abis_supported powerpc64 = 2
abis_supported _ = 1

-- sizeof(long) in a build for the architecture.
unfoldable pub sizeof_long : Arch → ℕ
sizeof_long aarch64 = 8
sizeof_long powerpc64 = 8
sizeof_long x86_64 = 8
sizeof_long ia64 = 8
sizeof_long _ = 4

-- ABI0_WORDSIZE, ABI1_WORDSIZE, ABI2_WORDSIZE, as many as there are ABIs.
unfoldable pub wordsizes : Arch → List ℕ
unfolding sizeof_long
wordsizes aarch64 = 8 ∷ 4 ∷ []
wordsizes x86_64 = 8 ∷ 4 ∷ 4 ∷ []
wordsizes x32 = 4 ∷ 4 ∷ []
wordsizes powerpc64 = 8 ∷ 4 ∷ []
wordsizes a = sizeof_long a ∷ []

-- A lookup in a table of one per ABI, or its only entry. Beyond the table C has no meaning; here
-- it gives 0.
pick : ℕ → List ℕ → ℕ
pick abi [] = 0
pick abi (w ∷ []) = w
pick abi (w ∷ v ∷ ws) = get_or 0 (get_elem? (w ∷ v ∷ ws) abi)

unfoldable pub wordsize : Arch → ℕ → ℕ
unfolding wordsizes pick
wordsize arch abi = pick abi (wordsizes arch)
