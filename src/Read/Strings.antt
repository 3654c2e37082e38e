-- ===== src/Read/Strings.antt =====
-- pinktrace/read.c: a string comes from process_vm_readv(2), or from ptrace(2) where the system or
-- the kernel refuses that call.
use pinktrace.Prelude.{
  ℕ, ◌+◌, ◌≤◌, ◌<◌, ◌^◌, ◌≡◌, ◌⊎◌, refl, arith, ap, ◌∙◌, inl, inr, ◌||◌, Bool, true, some, [],
  window, Bool-cases, ◌==◌,
}
use pinktrace.System.{State, ReadvCall, Calls, eperm, enosys}
use pinktrace.System.Loop.{◌>>=◌}
use pinktrace.Abi.{Arch}
use pinktrace.Vm.{setup_addr, process_vm_readv}
use pinktrace.Vm.Memory.{PeekReads}
use pinktrace.Vm.CreadNul.{ReadvWhole, cread_nul-string, cread_nul_refused}
use pinktrace.Vm.SameString.{c_string, string_stored, EndsAt, c_string-enough, lread_nul-c_string}
use pinktrace.Read.{vm_data_nul, unavailable}
use pinktrace.Read.Data.{Refused}

-- The kernel has no process_vm_readv(2) or a policy denies it.
abbrev pub RefusedAlways : {K : Type 0} → ReadvCall K → ℕ → Type 0
RefusedAlways {K} readv pid = (s : State K) (a len : ℕ) → Refused s (readv pid a len s)

module _ {K : Type 0} (sys : Calls K) (abi pid : ℕ) (mem : K → ℕ → ℕ) (mapped : K → ℕ → Bool)
    (peek : PeekReads sys.ptrace pid mem mapped)
    (readv : ReadvWhole sys.readv pid mem mapped ⊎ RefusedAlways sys.readv pid) where
  -- Whether process_vm_readv serves the range, or is missing or refused.
  pub readv-served :
      (s : State K)
      → ((sys.have_readv ≡ true) × ReadvWhole sys.readv pid mem mapped)
        ⊎ ((a len : ℕ) → Refused s (process_vm_readv sys.have_readv sys.readv pid a len s))
  unfolding process_vm_readv
  readv-served s = elim (Bool-cases sys.have_readv) [
    | inr missing ↦ inr (λ a len. rw missing ([], enosys, refl, inl refl))
    | inl there ↦ elim readv [
      | inl whole ↦ inl (there, whole)
      | inr refused ↦ inr (λ a len. rw there (refused s a len))
    ]
  ]

  -- Where the first zero byte from `addr` on is one of `len` mapped bytes, pink_read_vm_data_nul
  -- stores the C string of the tracee's memory, its zero byte with it, whether process_vm_readv
  -- serves it or is missing or refused and ptrace does; the kernel is as it was. The ABI does not
  -- truncate the address, the length is below 2 GiB, and 16 addresses or more follow the range.
  pub vm_data_nul-c_string :
      (addr len n : ℕ) (s : State K)
      → setup_addr Arch.x86_64 abi addr ≡ addr
      → addr + len + 16 ≤ 2 ^ 64
      → len < 2 ^ 31
      → n < len
      → EndsAt (mem s.kernel) addr n
      → ((i : ℕ) → addr ≤ i → i < addr + len → mapped s.kernel i ≡ true)
      → string_stored (vm_data_nul sys abi pid addr len s)
        ≡ some (c_string (window (mem s.kernel) addr len), s.kernel)
  unfolding vm_data_nul unavailable
  vm_data_nul-c_string addr len n s fits top small p ends there =
      elim (readv-served (record s { errno = 0 })) [
        | inl (have, whole) ↦
            let run =
              cread_nul-string sys.readv pid mem mapped whole addr (record s { errno = 0 })
                Arch.x86_64 abi len n fits (omega arith) small p ends.0 ends.1 there in
            (rw (vm_data_nul, ◌>>=◌, have, run.returns) refl)
            ∙ ap (λ t. some (t, s.kernel))
                (c_string-enough (mem s.kernel) addr len n run.stored p run.whole ends)
        | inr refused ↦
            let (k, ends_with) =
              cread_nul_refused sys.have_readv sys.readv Arch.x86_64 abi pid addr len
                (record s { errno = 0 }) (omega arith) in
            let (out, e, r, which) = refused (setup_addr Arch.x86_64 abi addr) k in
            let tried : (e == enosys || e == eperm) ≡ true = ground (arith, which) in
            (rw (vm_data_nul, ◌>>=◌, ends_with out (record s { errno = e }) r, tried) refl)
            ∙ lread_nul-c_string sys.ptrace pid mem mapped peek addr len n (record s { errno = e })
                (omega arith) p ends there
      ]
