-- ===== src/Read/Copy.antt =====
-- What pink_read_vm_data_full promises: a copy of a range of the tracee's memory, or a failure.
use pinktrace.Prelude.{
  ℕ, zero, suc, ◌+◌, ◌≤◌, ◌<◌, ◌^◌, ◌≡◌, refl, arith, inl, inr, ◌⊎◌, Bool, true, false, ◌&&◌,
  Bool-cases, Option, none, some, List, ℤ, is_neg, window, if◌then◌else◌, ◌==◌,
}
use pinktrace.System.{State, Calls}
use pinktrace.Abi.{Arch}
use pinktrace.Vm.{setup_addr}
use pinktrace.Vm.Memory.{PeekReads}
use pinktrace.Read.{vm_data_full}
use pinktrace.Read.Data.{ReadvReads, vm_data_full-window, vm_data_full_unmapped}

-- Every address of the range is mapped.
pub all_mapped : (ℕ → Bool) → (addr len : ℕ) → Bool
all_mapped mapped addr zero = true
all_mapped mapped addr (suc len) = mapped addr && all_mapped mapped (suc addr) len

-- The abstract operation: the bytes of a range that is mapped, and none of another.
pub copy : (mem : ℕ → ℕ) → (mapped : ℕ → Bool) → (addr len : ℕ) → Option (List ℕ)
unfolding all_mapped
copy mem mapped addr len = if all_mapped mapped addr len then some (window mem addr len) else none

-- The result of a call that stores bytes, read as such an operation: the bytes count where the
-- result is 0 or more.
abbrev pub outcome : ℤ × List ℕ → Option (List ℕ)
outcome (r, out) = if is_neg r then none else some out

-- Each address of the range is mapped, or one is not.
all_mapped-cases :
    (mapped : ℕ → Bool) (addr len : ℕ)
    → ((all_mapped mapped addr len ≡ true)
        × ((i : ℕ) → addr ≤ i → i < addr + len → mapped i ≡ true))
      ⊎ ((all_mapped mapped addr len ≡ false)
          × (i : ℕ) × (addr ≤ i)
          × (i < addr + len)
          × (mapped i ≡ false))
unfolding all_mapped
all_mapped-cases mapped addr zero = inl (refl, λ i p q. absurd (omega arith))
all_mapped-cases mapped addr (suc len) = elim (Bool-cases (mapped addr)) [
  | inr gone ↦ inr (rw gone refl, addr, omega arith, omega arith, gone)
  | inl here ↦ elim (all_mapped-cases mapped (suc addr) len) [
    | inr (e, i, p, q, gone) ↦ inr (rw here e, i, omega arith, omega arith, gone)
    | inl (e, h) ↦ inl (
      rw here e,
      λ i p q. elim (Bool-cases (i == addr)) [
        | inl same ↦ let c : i ≡ addr = ground arith in rw c here
        | inr other ↦ h i (ground arith) (omega arith)
      ],
    )
  ]
]

module _ {K : Type 0} (sys : Calls K) (abi pid : ℕ) (mem : K → ℕ → ℕ) (mapped : K → ℕ → Bool)
    (peek : PeekReads sys.ptrace pid mem mapped) (readv : ReadvReads sys.readv pid mem mapped) where
  -- For a range below 4 GiB of which the ABI does not truncate the address, pink_read_vm_data_full
  -- returns and implements the copy of a range: its result is 0 or more exactly where every byte is
  -- mapped, what it stored are then the bytes of the tracee's memory, and the kernel is as it was.
  pub vm_data_full-copy :
      (addr len : ℕ) (s : State K)
      → setup_addr Arch.x86_64 abi addr ≡ addr
      → addr + len + 8 ≤ 2 ^ 64
      → len < 2 ^ 32
      → (r : ℤ × List ℕ) × (e : ℕ) × (vm_data_full sys abi pid addr len s
          ≡ some (r, record s { errno = e }))
        × (outcome r ≡ copy (mem s.kernel) (mapped s.kernel) addr len)
  unfolding copy
  vm_data_full-copy addr len s fits top small = elim (all_mapped-cases (mapped s.kernel) addr len) [
    | inl (all, h) ↦
        let (e, run) =
          vm_data_full-window sys abi pid mem mapped peek readv addr len s fits top small h in
        (_, e, run, rw all refl)
    | inr (gone, i, p, q, h) ↦
        let (r, out, e, run) =
          vm_data_full_unmapped sys abi pid mem mapped peek readv addr len i s fits top p q h in
        (_, e, run, rw gone refl)
  ]
