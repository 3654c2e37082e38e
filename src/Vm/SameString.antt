-- ===== src/Vm/SameString.antt =====
-- pink_vm_cread_nul and pink_vm_lread_nul of pinktrace/vm.c side by side.
use mathlib.Core.Option.{map}
use pinktrace.Prelude.{
  ℕ, zero, suc, ◌+◌, ◌-◌, ◌^◌, ◌≤◌, ◌<◌, ◌≡◌, ◌≢◌, refl, sym, ap, ◌∙◌, arith, min, Bool, true,
  false, Option, some, List, [], ◌∷◌, ◌==◌, if◌then◌else◌, ℤ, window,
}
use pinktrace.System.{State, PtraceCall, ReadvCall}
use pinktrace.Abi.{Arch}
use pinktrace.Vm.{cread_nul, lread_nul, setup_addr, align}
use pinktrace.Vm.Memory.{PeekReads}
use pinktrace.Vm.LreadNul.{lread_nul-string}
use pinktrace.Vm.CreadNul.{ReadvWhole, cread_nul-string}

-- A C string in a buffer: the bytes up to the first zero byte and with it.
abbrev pub c_string : List ℕ → List ℕ
c_string [] = []
c_string (b ∷ bs) = if b == 0 then b ∷ [] else b ∷ c_string bs

-- The string that a run has stored, and the kernel after it.
abbrev pub string_stored : {K : Type 0} → Option ((ℤ × List ℕ) × State K) → Option (List ℕ × K)
string_stored run = map (λ r. (c_string r.0.1, r.1.kernel)) run

-- The first zero byte from `addr` on is at `addr + n`.
abbrev pub EndsAt : (f : ℕ → ℕ) (addr n : ℕ) → Type 0
EndsAt f addr n = (f (addr + n) ≡ 0) × ((j : ℕ) → j < n → f (addr + j) ≢ 0)

pub c_string-window :
    (f : ℕ → ℕ) (a m n : ℕ) → n < m → EndsAt f a n → c_string (window f a m) ≡ window f a (suc n)
c_string-window f a zero n p h = absurd (omega arith)
c_string-window f a (suc m) zero p (z, h) =
    let here : a + 0 ≡ a = omega arith in
    let zero_byte : f a ≡ 0 = rw here at z in
    let first : (f a == 0) ≡ true = ground arith in rw first refl
c_string-window f a (suc m) (suc n) p (z, h) =
    let here : a + 0 ≡ a = omega arith in
    let other : f a ≢ 0 = rw here at (h 0 (omega arith)) in
    let first : (f a == 0) ≡ false = ground arith in
    let next : (j : ℕ) → suc a + j ≡ a + suc j = λ j. omega arith in
    rw first (
      ap (λ t. f a ∷ t)
        (c_string-window f (suc a) m n (omega arith)
          (rw (next n) z, λ j q. rw (next j) (h (suc j) (omega arith)))))

-- A buffer that holds the memory from `addr` on past the zero byte holds the same string as any
-- other, one of `len` bytes say.
pub c_string-enough :
    (f : ℕ → ℕ) (addr len n k : ℕ)
    → n < len
    → n < k
    → EndsAt f addr n
    → c_string (window f addr k) ≡ c_string (window f addr len)
c_string-enough f addr len n k p q ends =
    c_string-window f addr k n q ends ∙ sym (c_string-window f addr len n p ends)

module _ {K : Type 0} (sys : PtraceCall K) (pid : ℕ) (mem : K → ℕ → ℕ) (mapped : K → ℕ → Bool)
    (peek : PeekReads sys pid mem mapped) where
  -- The string as ptrace gives it.
  pub lread_nul-c_string :
      (addr len n : ℕ) (s : State K)
      → addr + n + 16 ≤ 2 ^ 64
      → n < len
      → EndsAt (mem s.kernel) addr n
      → ((i : ℕ) → addr ≤ i → i < addr + len → mapped s.kernel i ≡ true)
      → string_stored (lread_nul sys pid addr len s)
        ≡ some (c_string (window (mem s.kernel) addr len), s.kernel)
  lread_nul-c_string addr len n s top p ends there =
      let k = min (align (addr + n) + 8 - addr) len in
      ap string_stored (
        lread_nul-string sys pid mem mapped peek addr len n s top (omega arith) (omega arith) ends.0
          ends.1 (λ i a b. there i a (omega arith)))
      ∙ ap (λ t. some (t, s.kernel))
          (c_string-enough (mem s.kernel) addr len n k p (omega arith) ends)

module _ {K : Type 0} (sys : PtraceCall K) (readv : ReadvCall K) (pid : ℕ) (mem : K → ℕ → ℕ)
    (mapped : K → ℕ → Bool) (peek : PeekReads sys pid mem mapped)
    (reads : ReadvWhole readv pid mem mapped) where
  -- The string as process_vm_readv gives it.
  pub cread_nul-c_string :
      (arch : Arch) (abi addr len n : ℕ) (s : State K)
      → setup_addr arch abi addr ≡ addr
      → addr + len < 2 ^ 64
      → len < 2 ^ 31
      → n < len
      → EndsAt (mem s.kernel) addr n
      → ((i : ℕ) → addr ≤ i → i < addr + len → mapped s.kernel i ≡ true)
      → string_stored (cread_nul true readv arch abi pid addr len s)
        ≡ some (c_string (window (mem s.kernel) addr len), s.kernel)
  cread_nul-c_string arch abi addr len n s fits top small p ends there =
      let run =
        cread_nul-string readv pid mem mapped reads addr s arch abi len n fits top small p ends.0
          ends.1 there in
      ap string_stored run.returns
      ∙ ap (λ t. some (t, s.kernel))
          (c_string-enough (mem s.kernel) addr len n run.stored p run.whole ends)

  -- Where the first zero byte from `addr` on is one of `len` mapped bytes, pink_vm_cread_nul and
  -- pink_vm_lread_nul store the same C string, its zero byte with it: that of the tracee's memory.
  -- Both leave the kernel as it was. The ABI does not truncate the address, the length is below
  -- 2 GiB, and 16 addresses or more follow the range.
  pub cread_nul-lread_nul :
      (arch : Arch) (abi addr len n : ℕ) (s : State K)
      → setup_addr arch abi addr ≡ addr
      → addr + len + 16 ≤ 2 ^ 64
      → len < 2 ^ 31
      → n < len
      → EndsAt (mem s.kernel) addr n
      → ((i : ℕ) → addr ≤ i → i < addr + len → mapped s.kernel i ≡ true)
      → (string_stored (cread_nul true readv arch abi pid addr len s)
          ≡ string_stored (lread_nul sys pid addr len s))
        × (string_stored (lread_nul sys pid addr len s)
            ≡ some (c_string (window (mem s.kernel) addr len), s.kernel))
  cread_nul-lread_nul arch abi addr len n s fits top small p ends there =
      let slow =
        lread_nul-c_string sys pid mem mapped peek addr len n s (omega arith) p ends there in
      (
        cread_nul-c_string arch abi addr len n s fits (omega arith) small p ends there ∙ sym slow,
        slow,
      )
