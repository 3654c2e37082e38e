-- ===== src/Read/Members.antt =====
-- pink_read_string_array of pinktrace/read.c on an array of pointers in the tracee's memory.
use mathlib.Core.Option.{map}
use pinktrace.Prelude.{
  ℕ, zero, suc, ◌+◌, ◌*◌, ◌≤◌, ◌<◌, ◌^◌, ◌≡◌, ◌≢◌, ◌⊎◌, refl, arith, ap, ◌∙◌, inl, inr, ◌||◌, Bool,
  true, false, Option, some, List, [], ℤ, pos, u64, from_le, window, Bool-cases, Option-cases, ◌==◌,
  if◌then◌else◌,
}
use pinktrace.System.{State, Calls, eperm, enosys}
use pinktrace.System.Loop.{D, ret, ◌>>=◌}
use pinktrace.Abi.{Arch, wordsize}
use pinktrace.Vm.{setup_addr, cread}
use pinktrace.Vm.Memory.{PeekReads}
use pinktrace.Vm.Lread.{cleared, lread-window}
use pinktrace.Vm.CreadNul.{ReadvWhole}
use pinktrace.Vm.SameString.{c_string, string_stored, EndsAt}
use pinktrace.Read.{string_array, vm_data, vm_data_nul, pointer, unavailable}
use pinktrace.Read.Strings.{RefusedAlways, readv-served, vm_data_nul-c_string}

-- Pointers have 4 or 8 bytes.
wordsize-pointer :
    (abi : ℕ) → abi < 3 → (wordsize Arch.x86_64 abi ≡ 4) ⊎ (wordsize Arch.x86_64 abi ≡ 8)
unfolding wordsize
wordsize-pointer zero h = inr refl
wordsize-pointer (suc zero) h = inl refl
wordsize-pointer (suc (suc zero)) h = inl refl
wordsize-pointer (suc (suc (suc n))) h = absurd (omega arith)

-- A pointer of a 64-bit or a 32-bit tracee, whatever the union held.
pointer-window :
    {K : Type 0} (sys : Calls K) (abi pid : ℕ) (junk : List ℕ) (f : ℕ → ℕ) (a wsize : ℕ)
    → (wsize ≡ 4) ⊎ (wsize ≡ 8)
    → pointer sys abi pid junk (window f a wsize) wsize ≡ from_le (window f a wsize)
unfolding pointer
pointer-window sys abi pid junk f a wsize (inl four) = rw four refl
pointer-window sys abi pid junk f a wsize (inr eight) = rw eight refl

cleared-pointer :
    {K : Type 0} (wsize : ℕ) (s : State K)
    → (wsize ≡ 4) ⊎ (wsize ≡ 8)
    → cleared wsize s ≡ record s { errno = 0 }
cleared-pointer wsize s (inl four) = rw four refl
cleared-pointer wsize s (inr eight) = rw eight refl

-- What pink_read_string_array promises for the member whose pointer is at `at`: the C string that it
-- points to, or that it is NULL.
abbrev pub member : (f : ℕ → ℕ) (at wsize dest_len : ℕ) → List ℕ × Option Bool
member f at wsize dest_len =
    let p = from_le (window f at wsize) in
    if p == 0 then ([], some true) else (c_string (window f p dest_len), some false)

-- The string that was stored, the mark behind `nullptr`, and the kernel.
abbrev pub member_stored :
    {K : Type 0}
    → Option ((ℤ × List ℕ × Option Bool) × State K)
    → Option ((List ℕ × Option Bool) × K)
member_stored run = map (λ r. ((c_string r.0.1, r.0.2), r.1.kernel)) run

-- A string that was stored, with the mark behind it.
not_null :
    {K : Type 0} (read : D K (ℤ × List ℕ)) (s : State K)
    → member_stored ((read >>= λ r. ret (r.0, r.1, some false)) s)
      ≡ map (λ r. ((r.0, some false), r.1)) (string_stored (read s))
not_null read s = elim (Option-cases (read s)) [
  | inl e ↦ rw (◌>>=◌, e) refl
  | inr (r, e) ↦ rw (◌>>=◌, e) refl
]

module _ {K : Type 0} (sys : Calls K) (abi pid : ℕ) (mem : K → ℕ → ℕ) (mapped : K → ℕ → Bool)
    (peek : PeekReads sys.ptrace pid mem mapped)
    (readv : ReadvWhole sys.readv pid mem mapped ⊎ RefusedAlways sys.readv pid) where
  -- The pointer of a member is read, and errno is 0 then.
  vm_data-pointer :
      (at wsize : ℕ) (s : State K)
      → (wsize ≡ 4) ⊎ (wsize ≡ 8)
      → setup_addr Arch.x86_64 abi at ≡ at
      → at + wsize + 8 ≤ 2 ^ 64
      → ((i : ℕ) → at ≤ i → i < at + wsize → mapped s.kernel i ≡ true)
      → vm_data sys abi pid at wsize s
        ≡ some ((pos wsize, window (mem s.kernel) at wsize), record s { errno = 0 })
  unfolding vm_data unavailable cread
  vm_data-pointer at wsize s size fits top there =
      let word = window (mem s.kernel) at wsize in
      let s' : State K = record s { errno = 0 } in
      elim (readv-served sys abi pid mem mapped peek readv s') [
        | inl (have, whole) ↦ rw (vm_data, cread, ◌>>=◌, have, fits, whole s' at wsize there) refl
        | inr refused ↦
            let (out, e, r, which) = refused at wsize in
            let tried : (e == enosys || e == eperm) ≡ true = ground (arith, which) in
            let small : wsize < 2 ^ 32 = omega (arith, size) in
            (rw (vm_data, cread, ◌>>=◌, fits, r, tried) refl)
            ∙ lread-window sys.ptrace pid mem mapped peek at wsize (record s { errno = e }) top
                small there
            ∙ ap (λ t. some ((pos wsize, word), t))
                (cleared-pointer wsize (record s { errno = e }) size)
      ]

  -- Where the pointer of the member is mapped, and, unless it is NULL, the first zero byte from where
  -- it points on is one of `dest_len` mapped bytes, pink_read_string_array stores the C string there
  -- and says that it is not NULL; for NULL it stores no string and says so. It does so for pointers of
  -- 4 and of 8 bytes, whatever its union held before, whether process_vm_readv serves the reads or is
  -- missing or refused; the kernel is as it was. The ABI truncates neither address, the length is
  -- below 2 GiB, 16 addresses or more follow the range of the string, and 28 the pointer.
  pub string_array-member :
      (junk : List ℕ) (arg arr_index dest_len n : ℕ) (s : State K)
      → abi < 3
      → let wsize = wordsize Arch.x86_64 abi in
        let at = arg + arr_index * wsize in
        let p = from_le (window (mem s.kernel) at wsize) in
        setup_addr Arch.x86_64 abi at ≡ at
        → at + 32 ≤ 2 ^ 64
        → ((i : ℕ) → at ≤ i → i < at + wsize → mapped s.kernel i ≡ true)
        → setup_addr Arch.x86_64 abi p ≡ p
        → p + dest_len + 16 ≤ 2 ^ 64
        → dest_len < 2 ^ 31
        → n < dest_len
        → (p ≢ 0 → EndsAt (mem s.kernel) p n)
        → (p ≢ 0 → (i : ℕ) → p ≤ i → i < p + dest_len → mapped s.kernel i ≡ true)
        → member_stored (string_array sys abi pid junk arg arr_index dest_len s)
          ≡ some (member (mem s.kernel) at wsize dest_len, s.kernel)
  unfolding string_array
  string_array-member junk arg arr_index dest_len n s known fits top there fits' top' small q ends
        there' =
      let wsize = wordsize Arch.x86_64 abi in
      let at = arg + arr_index * wsize in
      let p = from_le (window (mem s.kernel) at wsize) in
      let s' : State K = record s { errno = 0 } in
      let size = wordsize-pointer abi known in
      let plain : u64 at ≡ at = omega arith in
      let read = vm_data-pointer at wsize s' size fits (omega (arith, size)) there in
      let value = pointer-window sys abi pid junk (mem s.kernel) at wsize size in
      elim (Bool-cases (p == 0)) [
        | inl null ↦ rw (string_array, ◌>>=◌, plain, read, value, null) refl
        | inr other ↦
            let some_address : p ≢ 0 = ground arith in
            let run = vm_data_nul sys abi pid p dest_len in
            let text = window (mem s.kernel) p dest_len in
            (rw (string_array, ◌>>=◌, plain, read, value, other) refl)
            ∙ not_null run s'
            ∙ ap (λ t. map (λ r. ((r.0, some false), r.1)) t)
                (vm_data_nul-c_string sys abi pid mem mapped peek readv p dest_len n s' fits' top'
                  small q (ends some_address) (there' some_address))
            ∙ (rw other refl)
      ]
