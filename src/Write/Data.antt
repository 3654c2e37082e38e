-- ===== src/Write/Data.antt =====
-- pinktrace/write.c: data goes by process_vm_writev(2), or by ptrace(2) where the system or the
-- kernel refuses that call; and what pinktrace/read.c then reads.
mod Tests
use pinktrace.Prelude.{
  ℕ, zero, suc, ◌+◌, ◌-◌, ◌*◌, ◌/◌, ◌%◌, ◌≤◌, ◌<◌, ◌^◌, ◌≡◌, ◌⊎◌, refl, sym, arith, ap, ◌∙◌, inl,
  inr, ◌||◌, ◌&&◌, Bool, true, false, some, List, ℤ, pos, negsuc, window, length, Bool-cases, ◌==◌,
  leb, ltb,
}
use pinktrace.System.{State, WritevCall, Calls, eperm, enosys}
use pinktrace.System.Loop.{◌>>=◌}
use pinktrace.Abi.{Arch}
use pinktrace.Vm.{setup_addr, cwrite, process_vm_writev, lwrite}
use pinktrace.Vm.Memory.{PeekReads, window_ext, length-window}
use pinktrace.Vm.Lwrite.{PokeWrites, patched, lwrite-patched}
use pinktrace.Read
use pinktrace.Read.Data.{ReadvReads}
use pinktrace.Write

module _ {K : Type 0} (mem : K → ℕ → ℕ) (mapped : K → ℕ → Bool) where
  -- From the state `s` to `t` the `len` bytes from `addr` on become those of `src`; no byte before
  -- them changes, none from the end of the last word of 8 bytes on, and what is mapped stays so.
  pub record Written (src : ℕ → ℕ) (addr len : ℕ) (s t : State K) : Type 0 where
    pub bytes : window (mem t.kernel) addr len ≡ window src 0 len
    pub kept :
        (i : ℕ) → (i < addr) ⊎ (addr + (len + 7) / 8 * 8 ≤ i) → mem t.kernel i ≡ mem s.kernel i
    pub same : (i : ℕ) → mapped t.kernel i ≡ mapped s.kernel i

  -- process_vm_writev(2) to a range that is mapped stores the bytes, and leaves errno alone, or is
  -- refused: it returns -1 with ENOSYS or EPERM.
  abbrev pub WritevWrites : WritevCall K → ℕ → Type 0
  WritevWrites writev pid =
      (s : State K) (src : ℕ → ℕ) (addr len : ℕ)
      → ((i : ℕ) → addr ≤ i → i < addr + len → mapped s.kernel i ≡ true)
      → ((k : K) × (writev pid addr (window src 0 len) s ≡ (pos len, record s { kernel = k }))
          × Written src addr len s (record s { kernel = k }))
        ⊎ ((e : ℕ) × (writev pid addr (window src 0 len) s ≡ (negsuc 0, record s { errno = e }))
            × ((e ≡ enosys) ⊎ (e ≡ eperm)))

  patched-Written :
      (src pad : ℕ → ℕ) (addr len : ℕ) (s t : State K)
      → ((i : ℕ) → mem t.kernel i ≡ patched src pad (mem s.kernel) addr len i)
      → ((i : ℕ) → mapped t.kernel i ≡ mapped s.kernel i)
      → Written src addr len s t
  unfolding patched
  patched-Written src pad addr len s t g same = record {
    bytes = window_ext (mem t.kernel) src addr 0 len λ j p.
        let from_source : patched src pad (mem s.kernel) addr len (addr + j) ≡ src (0 + j) =
          let inside : (leb addr (addr + j) && ltb (addr + j) (addr + len)) ≡ true = ground arith in
          let place : addr + j - addr ≡ 0 + j = omega arith in rw (patched, inside, place) refl in
        g (addr + j) ∙ from_source;
    kept = λ i h. g i ∙ ground (arith, h);
    same = same;
  }

module _ {K : Type 0} (sys : Calls K) (abi pid : ℕ) (mem : K → ℕ → ℕ) (mapped : K → ℕ → Bool)
    (poke : PokeWrites sys.ptrace pid mem mapped) (writev : WritevWrites mem mapped sys.writev pid)
    (src pad : ℕ → ℕ) (src_byte : (i : ℕ) → src i < 256) (pad_byte : (i : ℕ) → pad i < 256) where
  cwrite-whole :
      (addr len : ℕ) (s : State K)
      → setup_addr Arch.x86_64 abi addr ≡ addr
      → ((i : ℕ) → addr ≤ i → i < addr + len → mapped s.kernel i ≡ true)
      → ((k : K) × (cwrite sys.have_writev sys.writev Arch.x86_64 abi pid src addr len s
            ≡ some (pos len, record s { kernel = k }))
          × Written mem mapped src addr len s (record s { kernel = k }))
        ⊎ ((e : ℕ) × (cwrite sys.have_writev sys.writev Arch.x86_64 abi pid src addr len s
              ≡ some (negsuc 0, record s { errno = e }))
            × ((e ≡ enosys) ⊎ (e ≡ eperm)))
  unfolding cwrite process_vm_writev
  cwrite-whole addr len s fits h = elim (Bool-cases sys.have_writev) [
    | inr missing ↦ rw (fits, missing) (inr (enosys, refl, inl refl))
    | inl there ↦
        rw (fits, there)
          (elim (writev s src addr len h) [
            | inl (k, e, w) ↦ inl (k, ap some e, w)
            | inr (e, r, k) ↦ inr (e, ap some r, k)
          ])
  ]

  -- To a range below 4 GiB that is mapped and starts at a multiple of 8, and of which the ABI does
  -- not truncate the address, pink_write_vm_data returns the length and stores the source's bytes,
  -- whether process_vm_writev does it or is missing or refused and ptrace does; nothing changes
  -- before the range, or from the end of its last word on.
  pub vm_data-Written :
      (addr len : ℕ) (s : State K)
      → setup_addr Arch.x86_64 abi addr ≡ addr
      → addr % 8 ≡ 0
      → addr + len + 8 ≤ 2 ^ 64
      → len < 2 ^ 32
      → ((i : ℕ) → addr ≤ i → i < addr + len → mapped s.kernel i ≡ true)
      → (t : State K) × (Write.vm_data sys abi pid (λ a. window pad a 8) src addr len s
          ≡ some (pos len, t))
        × Written mem mapped src addr len s t
  unfolding Write.vm_data
  vm_data-Written addr len s fits a top small there =
      let s' : State K = record s { errno = 0 } in
      elim (cwrite-whole addr len s' fits there) [
        | inl (k, r, w) ↦ (
          record { errno = 0; kernel = k },
          rw (Write.vm_data, ◌>>=◌, r) refl,
          record { bytes = w.bytes; kept = w.kept; same = w.same },
        )
        | inr (e, r, which) ↦
            let tried : (e == enosys || e == eperm) ≡ true = ground (arith, which) in
            let (t, run, g, same) =
              lwrite-patched sys.ptrace pid mem mapped poke src pad src_byte pad_byte addr len
                (record s { errno = e }) a top small there in
            (
              t,
              rw (Write.vm_data, ◌>>=◌, r, tried) run,
              patched-Written mem mapped src pad addr len s t g same,
            )
      ]

  -- What pink_write_vm_data has written, pink_read_vm_data reads back: the same bytes, and as many.
  -- The range is mapped, below 4 GiB, and starts at a multiple of 8, and the ABI does not truncate
  -- its address; either call may take process_vm_writev or process_vm_readv, or ptrace.
  pub write-read :
      PeekReads sys.ptrace pid mem mapped
      → ReadvReads sys.readv pid mem mapped
      → (addr len : ℕ) (s : State K) → setup_addr Arch.x86_64 abi addr ≡ addr
      → addr % 8 ≡ 0
      → addr + len + 8 ≤ 2 ^ 64
      → len < 2 ^ 32
      → ((i : ℕ) → addr ≤ i → i < addr + len → mapped s.kernel i ≡ true)
      → (t : State K) × (e : ℕ) × (Write.vm_data sys abi pid (λ a. window pad a 8) src addr len s
          ≡ some (pos len, t))
        × (Read.vm_data sys abi pid addr len t
            ≡ some ((pos len, window src 0 len), record t { errno = e }))
  write-read peek readv addr len s fits a top small there =
      let (t, run, w) = vm_data-Written addr len s fits a top small there in
      let (e, back) =
        Read.Data.vm_data-window sys abi pid mem mapped peek readv addr len t fits top small
          (λ i p q. w.same i ∙ there i p q) in
      (t, e, run, back ∙ ap (λ bs. some ((pos len, bs), record t { errno = e })) w.bytes)
