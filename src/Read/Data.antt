-- ===== src/Read/Data.antt =====
-- pinktrace/read.c: data comes from process_vm_readv(2), or from ptrace(2) where the system or the
-- kernel refuses that call.
use pinktrace.Prelude.{
  ℕ, zero, suc, ◌+◌, ◌≤◌, ◌<◌, ◌^◌, ◌≡◌, ◌⊎◌, refl, arith, ap, ◌∙◌, inl, inr, ◌||◌, Bool, true,
  false, some, List, [], ℤ, pos, negsuc, window, Bool-cases, ◌==◌,
}
use pinktrace.System.{State, ReadvCall, Calls, eperm, enosys}
use pinktrace.System.Loop.{◌>>=◌}
use pinktrace.Abi.{Arch}
use pinktrace.Vm.{setup_addr, cread, process_vm_readv}
use pinktrace.Vm.Memory.{PeekReads}
use pinktrace.Vm.Lread.{cleared, lread-window, lread_unmapped}
use pinktrace.Read.{vm_data, vm_data_full, unavailable}

-- The call is refused: it returns -1 with ENOSYS or EPERM.
abbrev pub Refused : {K : Type 0} → (s : State K) → (ℤ × List ℕ) × State K → Type 0
Refused s r =
    (out : List ℕ) × (e : ℕ) × (r ≡ ((negsuc 0, out), record s { errno = e }))
    × ((e ≡ enosys) ⊎ (e ≡ eperm))

-- process_vm_readv(2) of a range that is mapped gives the bytes of the memory, or is refused; of
-- one that is not, it is refused, gives fewer bytes, or fails with an errno.
pub record ReadvReads {K : Type 0} (readv : ReadvCall K) (pid : ℕ) (mem : K → ℕ → ℕ)
    (mapped : K → ℕ → Bool) : Type 0 where
  pub whole :
      (s : State K) (a len : ℕ)
      → ((i : ℕ) → a ≤ i → i < a + len → mapped s.kernel i ≡ true)
      → (readv pid a len s ≡ ((pos len, window (mem s.kernel) a len), s))
        ⊎ Refused s (readv pid a len s)
  pub short :
      (s : State K) (a len i : ℕ)
      → a ≤ i
      → i < a + len
      → mapped s.kernel i ≡ false
      → ((n : ℕ) × (out : List ℕ) × (readv pid a len s ≡ ((pos n, out), s)) × (n < len))
        ⊎ ((out : List ℕ) × (e : ℕ) × (readv pid a len s
              ≡ ((negsuc 0, out), record s { errno = suc e })))

cleared_errno :
    {K : Type 0} (len : ℕ) (s : State K) → (e : ℕ) × (cleared len s ≡ record s { errno = e })
cleared_errno zero s = (s.errno, refl)
cleared_errno (suc len) s = (0, refl)

module _ {K : Type 0} (sys : Calls K) (abi pid : ℕ) (mem : K → ℕ → ℕ) (mapped : K → ℕ → Bool)
    (peek : PeekReads sys.ptrace pid mem mapped) (readv : ReadvReads sys.readv pid mem mapped) where
  cread-whole :
      (addr len : ℕ) (s : State K)
      → setup_addr Arch.x86_64 abi addr ≡ addr
      → ((i : ℕ) → addr ≤ i → i < addr + len → mapped s.kernel i ≡ true)
      → (cread sys.have_readv sys.readv Arch.x86_64 abi pid addr len s
          ≡ some ((pos len, window (mem s.kernel) addr len), s))
        ⊎ ((out : List ℕ) × (e : ℕ) × (cread sys.have_readv sys.readv Arch.x86_64 abi pid addr len s
              ≡ some ((negsuc 0, out), record s { errno = e }))
            × ((e ≡ enosys) ⊎ (e ≡ eperm)))
  unfolding cread process_vm_readv
  cread-whole addr len s fits h = elim (Bool-cases sys.have_readv) [
    | inr missing ↦ rw (fits, missing) (inr ([], enosys, refl, inl refl))
    | inl there ↦
        rw (fits, there)
          (elim (readv.whole s addr len h) [
            | inl e ↦ inl (ap some e)
            | inr (out, e, r, k) ↦ inr (out, e, ap some r, k)
          ])
  ]

  -- Where every byte of the range is mapped, and the ABI does not truncate its address,
  -- pink_read_vm_data returns its
  -- length and has stored exactly the bytes of the tracee's memory, whether process_vm_readv does
  -- it or is missing or refused and ptrace does; the kernel is as it was. The range is below 4 GiB.
  pub vm_data-window :
      (addr len : ℕ) (s : State K)
      → setup_addr Arch.x86_64 abi addr ≡ addr
      → addr + len + 8 ≤ 2 ^ 64
      → len < 2 ^ 32
      → ((i : ℕ) → addr ≤ i → i < addr + len → mapped s.kernel i ≡ true)
      → (e : ℕ) × (vm_data sys abi pid addr len s
          ≡ some ((pos len, window (mem s.kernel) addr len), record s { errno = e }))
  unfolding vm_data unavailable
  vm_data-window addr len s fits top small h =
      elim (cread-whole addr len (record s { errno = 0 }) fits h) [
        | inl r ↦ (0, rw (vm_data, ◌>>=◌, r) refl)
        | inr (out, e, r, k) ↦
            let s' : State K = record s { errno = e } in
            let tried : (e == enosys || e == eperm) ≡ true = ground (arith, k) in
            let (e', c) = cleared_errno len s' in
            (
              e',
              rw (vm_data, ◌>>=◌, r, tried)
                  (lread-window sys.ptrace pid mem mapped peek addr len s' top small h
                    ∙ ap (λ t. some ((pos len, window (mem s.kernel) addr len), t)) c),
            )
      ]

  -- Where every byte of the range is mapped, and the ABI does not truncate its address,
  -- pink_read_vm_data_full returns 0 and has stored exactly the bytes of the tracee's memory; the
  -- kernel is as it was. The range is below 4 GiB.
  pub vm_data_full-window :
      (addr len : ℕ) (s : State K)
      → setup_addr Arch.x86_64 abi addr ≡ addr
      → addr + len + 8 ≤ 2 ^ 64
      → len < 2 ^ 32
      → ((i : ℕ) → addr ≤ i → i < addr + len → mapped s.kernel i ≡ true)
      → (e : ℕ) × (vm_data_full sys abi pid addr len s
          ≡ some ((pos 0, window (mem s.kernel) addr len), record s { errno = e }))
  unfolding vm_data_full
  vm_data_full-window addr len s fits top small h =
      let (e, r) = vm_data-window addr len (record s { errno = 0 }) fits top small h in
      let all : (len == len) ≡ true = ground arith in (e, rw (vm_data_full, ◌>>=◌, r, all) refl)

  cread-short :
      (addr len i : ℕ) (s : State K)
      → setup_addr Arch.x86_64 abi addr ≡ addr
      → addr ≤ i
      → i < addr + len
      → mapped s.kernel i ≡ false
      → ((n : ℕ) × (out : List ℕ) × (cread sys.have_readv sys.readv Arch.x86_64 abi pid addr len s
            ≡ some ((pos n, out), s))
          × (n < len))
        ⊎ ((out : List ℕ) × (e : ℕ) × (cread sys.have_readv sys.readv Arch.x86_64 abi pid addr len s
              ≡ some ((negsuc 0, out), record s { errno = suc e })))
  unfolding cread process_vm_readv
  cread-short addr len i s fits p q h = elim (Bool-cases sys.have_readv) [
    | inr missing ↦ rw (fits, missing) (inr ([], 37, refl))
    | inl there ↦
        rw (fits, there)
          (elim (readv.short s addr len i p q h) [
            | inl (n, out, e, b) ↦ inl (n, out, ap some e, b)
            | inr (out, e, r) ↦ inr (out, e, ap some r)
          ])
  ]

  -- Where a byte of the range is not mapped, and the ABI does not truncate the address,
  -- pink_read_vm_data_full returns a negated errno, however much was read, and leaves the kernel as it was.
  pub vm_data_full_unmapped :
      (addr len i : ℕ) (s : State K)
      → setup_addr Arch.x86_64 abi addr ≡ addr
      → addr + len + 8 ≤ 2 ^ 64
      → addr ≤ i
      → i < addr + len
      → mapped s.kernel i ≡ false
      → (r : ℕ) × (out : List ℕ) × (e : ℕ) × (vm_data_full sys abi pid addr len s
          ≡ some ((negsuc r, out), record s { errno = e }))
  unfolding vm_data_full vm_data unavailable
  vm_data_full_unmapped addr len i s fits top p q h =
      elim (cread-short addr len i (record s { errno = 0 }) fits p q h) [
        | inl (n, out, r, b) ↦
            let partly : (len == n) ≡ false = ground arith in
            (13, out, 0, rw (vm_data_full, vm_data, ◌>>=◌, r, partly) refl)
        | inr (out, e, r) ↦ elim (Bool-cases (suc e == enosys || suc e == eperm)) [
          | inr final ↦ (e, out, suc e, rw (vm_data_full, vm_data, ◌>>=◌, r, final) refl)
          | inl tried ↦
              let f =
                lread_unmapped sys.ptrace pid mem mapped peek addr len i
                  (record s { errno = suc e }) top p q h in
              (
                f.error,
                f.out,
                suc f.error,
                rw (vm_data_full, vm_data, ◌>>=◌, r, tried, f.returns) refl,
              )
        ]
      ]
