-- ===== src/Read/Total.antt =====
-- The functions of pinktrace/read.c that pinktrace/socket.c calls return, whatever the kernel does.
use pinktrace.Prelude.{
  ℕ, zero, suc, ◌<◌, ◌≡◌, refl, arith, Bool-cases, inl, inr, Option, none, some, ◌==◌, leb, ℤ, pos,
  neg, sext32, [],
}
use pinktrace.System.{State, Calls, einval}
use pinktrace.System.Loop.{ReturnsWith, bind-ReturnsWith, if-ReturnsWith, ret}
use pinktrace.Abi.{Arch, abi_i386}
use pinktrace.Regset.{
  Layout, Regset, Reg, rdi, rsi, rdx, r10, r8, r9, Reg32, ebx, ecx, edx, esi, edi, ebp, reg32,
  reg64,
}
use pinktrace.Vm.{cread, lread, process_vm_readv, setup_addr}
use pinktrace.Vm.Returns.{lread-lread_nul-lwrite-Returns}
use pinktrace.Read.{vm_data, vm_data_full, unavailable, argument, argument_reg, argument_reg32}

-- Any result.
abbrev pub Any : {A : Type 0} → A → Type 0
Any a = Unit {0}

module _ {K : Type 0} (sys : Calls K) (abi pid : ℕ) where
  pub vm_data-Returns :
      (addr len : ℕ) (s : State K) → ReturnsWith Any (vm_data sys abi pid addr len s)
  unfolding vm_data cread
  vm_data-Returns addr len s =
      let u =
        process_vm_readv sys.have_readv sys.readv pid (setup_addr Arch.x86_64 abi addr) len
          (record s { errno = 0 }) in
      let ((r, t), e) =
        (lread-lread_nul-lwrite-Returns sys.ptrace pid (λ a. []) (λ i. 0) addr len u.1).0 in
      if-ReturnsWith Any (unavailable sys abi pid u.1.errno) (lread sys.ptrace pid addr len)
        (ret u.0) u.1 (r, t, e, tt) (u.0, u.1, refl, tt)

  pub vm_data_full-Returns :
      (addr len : ℕ) (s : State K) → ReturnsWith Any (vm_data_full sys abi pid addr len s)
  unfolding vm_data_full
  vm_data_full-Returns addr len s =
      bind-ReturnsWith Any Any (vm_data sys abi pid addr len) _ (record s { errno = 0 })
        (vm_data-Returns addr len (record s { errno = 0 })) (λ a t p. (_, _, refl, tt))

argument_reg-known : (i : ℕ) → i < 6 → (g : Reg) × (argument_reg i ≡ some g)
unfolding argument_reg
argument_reg-known zero h = (rdi, refl)
argument_reg-known (suc zero) h = (rsi, refl)
argument_reg-known (suc (suc zero)) h = (rdx, refl)
argument_reg-known (suc (suc (suc zero))) h = (r10, refl)
argument_reg-known (suc (suc (suc (suc zero)))) h = (r8, refl)
argument_reg-known (suc (suc (suc (suc (suc zero))))) h = (r9, refl)
argument_reg-known (suc (suc (suc (suc (suc (suc i)))))) h = absurd (omega arith)

argument_reg32-known : (i : ℕ) → i < 6 → (g : Reg32) × (argument_reg32 i ≡ some g)
unfolding argument_reg32
argument_reg32-known zero h = (ebx, refl)
argument_reg32-known (suc zero) h = (ecx, refl)
argument_reg32-known (suc (suc zero)) h = (edx, refl)
argument_reg32-known (suc (suc (suc zero))) h = (esi, refl)
argument_reg32-known (suc (suc (suc (suc zero)))) h = (edi, refl)
argument_reg32-known (suc (suc (suc (suc (suc zero))))) h = (ebp, refl)
argument_reg32-known (suc (suc (suc (suc (suc (suc i)))))) h = absurd (omega arith)

-- pink_read_argument does not abort.
pub argument-Returns :
    (l : Layout) (r : Regset) (i : ℕ) → (x : ℤ × Option ℕ) × (argument l r i ≡ some x)
unfolding argument
argument-Returns l r i = elim (Bool-cases (leb 6 i)) [
  | inl beyond ↦ ((neg einval, none), rw (argument, beyond) refl)
  | inr few ↦ elim (Bool-cases (r.abi == abi_i386)) [
    | inl narrow ↦
        let (g, e) = argument_reg32-known i (ground arith) in
        ((pos 0, some (sext32 (reg32 r.words g))), rw (argument, few, narrow, e) refl)
    | inr wide ↦
        let (g, e) = argument_reg-known i (ground arith) in
        ((pos 0, some (reg64 l r.words g)), rw (argument, few, wide, e) refl)
  ]
]
