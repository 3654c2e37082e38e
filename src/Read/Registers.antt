-- ===== src/Read/Registers.antt =====
-- Return values and arguments of pinktrace/read.c on x86-64.
use pinktrace.Prelude.{
  zero, suc, inl, inr, Bool-cases, refl, ℕ, ◌-◌, ◌^◌, ◌≤◌, ◌<◌, ◌≡◌, ◌≢◌, arith, false, some, List,
  get_elem?, pos, u32, neg64, sext32, ◌==◌, leb,
}
use pinktrace.Abi.{abi_x86_64, abi_i386, abi_x32}
use pinktrace.Regset.{
  Regset, Layout, Reg, Reg32, rax, rdi, rsi, rdx, r10, r8, r9, ebx, ecx, edx, esi, edi, ebp, reg64,
  reg32,
}
use pinktrace.Abi.{Arch, wordsize, sizeof_long, abis_supported}
use pinktrace.Read.Negated.{negated, not_negated, negated_low_half}
use pinktrace.Read.{retval, argument, argument_reg, argument_reg32}

-- A register set of the words `words` in the ABI `abi`.
abbrev pub in_abi : (words : ℕ → ℕ) → (len abi : ℕ) → Regset
in_abi words len abi = record { words = words; iov_len = len; abi = abi }

module _ (nerrnos : List ℕ) (n : ℕ) (l : Layout) (words : ℕ → ℕ) (len : ℕ) where
  -- In the x86-64 ABI the negation of a positive number below nerrnos0 is read as -1 with that
  -- error.
  pub retval_error :
      (e : ℕ)
      → get_elem? nerrnos 0 ≡ some n
      → n < 2 ^ 31
      → 0 < e
      → e < n
      → reg64 l words rax ≡ 2 ^ 64 - e
      → retval nerrnos l (in_abi words len abi_x86_64) ≡ some (2 ^ 64 - 1, e)
  unfolding retval
  retval_error e k b p q v =
      let failed =
        negated Arch.x86_64 nerrnos n (reg64 l words rax) abi_x86_64 (unfold sizeof_long in refl) k
          b e (unfold wordsize in refl) p q v in
      let f : u32 (neg64 (reg64 l words rax)) ≡ e = omega arith in rw (retval, failed, f)

  -- In the x86-64 ABI every other value is read as it is, without an error: all 64 bits count.
  pub retval_value :
      get_elem? nerrnos 0 ≡ some n
      → 0 < n
      → n < 2 ^ 31
      → reg64 l words rax ≤ 2 ^ 64 - n
      → retval nerrnos l (in_abi words len abi_x86_64) ≡ some (reg64 l words rax, 0)
  unfolding retval
  retval_value k p b v =
      let fine =
        not_negated Arch.x86_64 nerrnos n (reg64 l words rax) abi_x86_64
          (unfold sizeof_long in refl) k b (unfold wordsize in refl) p v in
      rw (retval, fine)

  -- In the x32 ABI the low half of a return value decides: where it is the negation of a positive
  -- number below nerrnos2, the value is read as -1 with that error, whatever the high half is.
  pub retval_low_half :
      (e : ℕ)
      → get_elem? nerrnos abi_x32 ≡ some n
      → n < 2 ^ 31
      → 0 < e
      → e < n
      → reg64 l words rax < 2 ^ 64
      → u32 (reg64 l words rax) ≡ 2 ^ 32 - e
      → retval nerrnos l (in_abi words len abi_x32) ≡ some (2 ^ 64 - 1, e)
  unfolding retval
  retval_low_half e k b p q w v =
      let failed =
        negated_low_half Arch.x86_64 nerrnos n (reg64 l words rax) abi_x32
          (unfold sizeof_long in refl) k b e (unfold wordsize in refl)
          (unfold abis_supported in omega arith) p q v in
      let f : u32 (neg64 (reg64 l words rax)) ≡ e = omega arith in rw (retval, failed, f)

  pub argument-reg64 :
      (i abi : ℕ) (r : Reg)
      → abi ≢ abi_i386
      → i < 6
      → argument_reg i ≡ some r
      → argument l (in_abi words len abi) i ≡ some (pos 0, some (reg64 l words r))
  unfolding argument
  argument-reg64 i abi r a b h =
      let e : (abi == abi_i386) ≡ false = ground arith in
      let g : leb 6 i ≡ false = ground arith in rw (g, e, h)

  pub argument-reg32 :
      (i : ℕ) (r : Reg32)
      → i < 6
      → argument_reg32 i ≡ some r
      → argument l (in_abi words len abi_i386) i ≡ some (pos 0, some (sext32 (reg32 words r)))
  unfolding argument
  argument-reg32 i r b h = let g : leb 6 i ≡ false = ground arith in rw (g, h)

argument_reg-some : (i : ℕ) → i < 6 → (g : Reg) × (argument_reg i ≡ some g)
unfolding argument_reg
argument_reg-some zero h = (rdi, refl)
argument_reg-some (suc zero) h = (rsi, refl)
argument_reg-some (suc (suc zero)) h = (rdx, refl)
argument_reg-some (suc (suc (suc zero))) h = (r10, refl)
argument_reg-some (suc (suc (suc (suc zero)))) h = (r8, refl)
argument_reg-some (suc (suc (suc (suc (suc zero))))) h = (r9, refl)
argument_reg-some (suc (suc (suc (suc (suc (suc i)))))) h = absurd (omega arith)

argument_reg32-some : (i : ℕ) → i < 6 → (g : Reg32) × (argument_reg32 i ≡ some g)
unfolding argument_reg32
argument_reg32-some zero h = (ebx, refl)
argument_reg32-some (suc zero) h = (ecx, refl)
argument_reg32-some (suc (suc zero)) h = (edx, refl)
argument_reg32-some (suc (suc (suc zero))) h = (esi, refl)
argument_reg32-some (suc (suc (suc (suc zero)))) h = (edi, refl)
argument_reg32-some (suc (suc (suc (suc (suc zero))))) h = (ebp, refl)
argument_reg32-some (suc (suc (suc (suc (suc (suc i)))))) h = absurd (omega arith)

-- Each of the six arguments is stored.
pub argument-stored :
    (l : Layout) (r : Regset) (i : ℕ) → i < 6 → (v : ℕ) × (argument l r i ≡ some (pos 0, some v))
unfolding argument
argument-stored l r i h =
    let few : leb 6 i ≡ false = ground arith in
    elim (Bool-cases (r.abi == abi_i386)) [
      | inl narrow ↦
          let (g, e) = argument_reg32-some i h in
          (sext32 (reg32 r.words g), rw (argument, few, narrow, e) refl)
      | inr wide ↦
          let (g, e) = argument_reg-some i h in
          (reg64 l r.words g, rw (argument, few, wide, e) refl)
    ]
