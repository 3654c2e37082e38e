-- ===== src/Read/Negated.antt =====
-- is_negated_errno of pinktrace/read.c where a `long` has 8 bytes, and where it has 4.
use pinktrace.Prelude.{
  ℕ, ◌-◌, ◌%◌, ◌^◌, ◌≤◌, ◌<◌, ◌≡◌, refl, arith, ◌&&◌, true, false, some, List, ltb, get_elem?, u32,
  neg64, if◌then◌else◌, Bool-cases, inl, inr,
}
use pinktrace.Abi.{Arch, abis_supported, sizeof_long, wordsize}
use pinktrace.Read.{is_negated_errno}

module _ (arch : Arch) (nerrnos : List ℕ) (n val abi : ℕ) (long : sizeof_long arch ≡ 8)
    (count : get_elem? nerrnos abi ≡ some n) (small : n < 2 ^ 31) where
  -- Whatever the bytes of the ABI's words, the test is on 64 bits or on the low 32 bits.
  tests :
      is_negated_errno arch nerrnos val abi
      ≡ some (
          if ltb 1 (abis_supported arch) && ltb 4 8 && ltb (wordsize arch abi) 8
          then ltb (u32 (neg64 n)) (u32 val)
          else ltb (neg64 n) val)
  unfolding is_negated_errno
  tests =
      let max : (2 ^ 64 - n) % 2 ^ 64 ≡ neg64 n = omega arith in
      rw (is_negated_errno, count, long, max) refl

  pub negated :
      (e : ℕ)
      → wordsize arch abi ≡ 8
      → 0 < e
      → e < n
      → val ≡ 2 ^ 64 - e
      → is_negated_errno arch nerrnos val abi ≡ some true
  negated e wide p q v =
      let above : ltb (neg64 n) val ≡ true = ground arith in rw (tests, wide, above) (ground arith)

  pub not_negated :
      wordsize arch abi ≡ 8
      → 0 < n
      → val ≤ 2 ^ 64 - n
      → is_negated_errno arch nerrnos val abi ≡ some false
  not_negated wide p v =
      let below : ltb (neg64 n) val ≡ false = ground arith in rw (tests, wide, below) (ground arith)

  pub negated_low_half :
      (e : ℕ)
      → wordsize arch abi ≡ 4
      → 1 < abis_supported arch
      → 0 < e
      → e < n
      → u32 val ≡ 2 ^ 32 - e
      → is_negated_errno arch nerrnos val abi ≡ some true
  negated_low_half e narrow several p q v =
      let above : ltb (u32 (neg64 n)) (u32 val) ≡ true = ground arith in
      let more : ltb 1 (abis_supported arch) ≡ true = ground arith in
      rw (tests, narrow, more, above)

  pub not_negated_low_half :
      wordsize arch abi ≡ 4
      → 1 < abis_supported arch
      → 0 < n
      → u32 val ≤ 2 ^ 32 - n
      → is_negated_errno arch nerrnos val abi ≡ some false
  not_negated_low_half narrow several p v =
      let below : ltb (u32 (neg64 n)) (u32 val) ≡ false = ground arith in
      let more : ltb 1 (abis_supported arch) ≡ true = ground arith in
      rw (tests, narrow, more, below)

-- Where a `long` has 4 bytes the test is on 32 bits, whatever the ABI.
pub negated_narrow :
    (arch : Arch) (nerrnos : List ℕ) (n val abi : ℕ)
    → sizeof_long arch ≡ 4
    → get_elem? nerrnos abi ≡ some n
    → is_negated_errno arch nerrnos val abi ≡ some (ltb ((2 ^ 32 - n) % 2 ^ 32) val)
unfolding is_negated_errno
negated_narrow arch nerrnos n val abi long count = elim (Bool-cases (ltb 1 (abis_supported arch))) [
  | inl e ↦ rw (is_negated_errno, count, long, e) refl
  | inr e ↦ rw (is_negated_errno, count, long, e) refl
]
