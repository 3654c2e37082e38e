-- ===== src/Vm/Lread.antt =====
-- pink_vm_lread of pinktrace/vm.c against the tracee's memory.
use mathlib.Core.List.{append-nil, append_assoc}
use pinktrace.Prelude.{
  ℕ, zero, suc, ◌+◌, ◌-◌, ◌/◌, ◌%◌, ◌^◌, ◌≤◌, ◌<◌, ◌≡◌, ◌≢◌, refl, arith, ap, inl, inr, min, Bool,
  true, false, Option, some, List, [], ◌++◌, take, drop, ℤ, pos, negsuc, le_bytes, window, ◌∙◌, sym,
  Bool-cases, u32, u64, ◌==◌, ap₂,
}
use mathlib.Core.Bool.{false≢true}
use pinktrace.System.{State, PtraceCall}
use pinktrace.Vm.{lread, lread_loop, align, slice}
use pinktrace.Vm.Memory.{
  PeekReads, window-append, take-drop-window, read_word_data-mapped, read_word_data-unmapped,
}

-- What one round takes from the word at the aligned address is the memory from `addr` on.
pub slice-window :
    (f : ℕ → ℕ) (addr m v : ℕ)
    → addr % 8 + m ≤ 8
    → le_bytes 8 v ≡ window f (align addr) 8
    → slice (addr % 8) m (some v) ≡ window f addr m
slice-window f addr m v h e =
    let back : addr - addr % 8 + addr % 8 ≡ addr = omega arith in
    ap (λ bs. take m (drop (addr % 8) bs)) e
    ∙ take-drop-window f (align addr) (addr % 8) m 8 h
    ∙ ap (λ a. window f a m) back

-- The rest of the range starts at the next word, or is empty.
rest-window :
    (f : ℕ → ℕ) (addr len m : ℕ)
    → m ≡ min (8 - addr % 8) len
    → window f addr len ≡ window f addr m ++ window f (align addr + 8) (len - m)
rest-window f addr len m e =
    let split : len ≡ m + (len - m) = omega arith in
    ap (window f addr) split
    ∙ window-append f addr m (len - m)
    ∙ ap (λ t. window f addr m ++ t) (tail (len - m) refl)
  where
    tail : (k : ℕ) → len - m ≡ k → window f (addr + m) k ≡ window f (align addr + 8) k
    tail zero h = refl
    tail (suc k) h = let g : addr + m ≡ align addr + 8 = omega arith in rw g

-- A run that returns -1 with an errno other than 0, over the kernel `k`.
pub record Fails {K : Type 0} (k : K) (run : Option ((ℤ × List ℕ) × State K)) : Type 0 where
  pub out : List ℕ
  pub error : ℕ
  pub returns : run ≡ some ((negsuc 0, out), record { errno = suc error; kernel = k })

-- The state after reading `len` bytes: a word that was read leaves 0 in errno.
abbrev pub cleared : {K : Type 0} → ℕ → State K → State K
cleared zero s = s
cleared (suc len) s = record s { errno = 0 }

cleared_twice :
    {K : Type 0} (n : ℕ) (s : State K) → cleared n (record s { errno = 0 }) ≡ record s { errno = 0 }
cleared_twice zero s = refl
cleared_twice (suc n) s = refl

module _ {K : Type 0} (sys : PtraceCall K) (pid : ℕ) (mem : K → ℕ → ℕ) (mapped : K → ℕ → Bool)
    (peek : PeekReads sys pid mem mapped) where
  -- One round on a mapped word.
  lread_loop-mapped :
      (fuel addr len count : ℕ) (dest : List ℕ) (s : State K)
      → 0 < len
      → mapped s.kernel addr ≡ true
      → let m = min (8 - addr % 8) len in
        lread_loop sys pid (suc fuel) addr (addr % 8) len count dest s
        ≡ lread_loop sys pid fuel
            (u64 (align addr + 8))
            0
            (len - m)
            (u32 (count + m))
            (dest ++ window (mem s.kernel) addr m)
            (record s { errno = 0 })
  unfolding lread_loop
  lread_loop-mapped fuel addr zero count dest s pos_len h = absurd (omega arith)
  lread_loop-mapped fuel addr (suc len) count dest s pos_len h =
      let a : align addr % 8 ≡ 0 = omega arith in
      let same : align addr / 8 ≡ addr / 8 = omega arith in
      let h' : mapped s.kernel (align addr) ≡ true =
        peek.grain s.kernel (align addr) addr same ∙ h in
      let (v, e, b) = read_word_data-mapped sys pid mem mapped peek s (align addr) a h' in
      let going : (suc len == 0) ≡ false = ground arith in
      rw (
        going,
        e,
        slice-window (mem s.kernel) addr (min (8 - addr % 8) (suc len)) v (omega arith) b,
      )

  -- One round on a word that is not mapped.
  lread_loop-stops :
      (fuel addr len count : ℕ) (dest : List ℕ) (s : State K)
      → 0 < len
      → mapped s.kernel addr ≡ false
      → Fails s.kernel (lread_loop sys pid (suc fuel) addr (addr % 8) len count dest s)
  unfolding lread_loop
  lread_loop-stops fuel addr len count dest s pos_len h =
      let a : align addr % 8 ≡ 0 = omega arith in
      let same : align addr / 8 ≡ addr / 8 = omega arith in
      let h' : mapped s.kernel (align addr) ≡ false =
        peek.grain s.kernel (align addr) addr same ∙ h in
      let (e, g) = read_word_data-unmapped sys pid mem mapped peek s (align addr) a h' in
      let going : (len == 0) ≡ false = ground arith in
      record { out = dest; error = e; returns = rw (going, g) }

  lread_loop-window :
      (fuel addr residue len count : ℕ) (dest : List ℕ) (s : State K)
      → len < fuel
      → residue ≡ addr % 8
      → addr + len + 8 ≤ 2 ^ 64
      → count + len < 2 ^ 32
      → ((i : ℕ) → addr ≤ i → i < addr + len → mapped s.kernel i ≡ true)
      → lread_loop sys pid fuel addr residue len count dest s
        ≡ some ((pos (count + len), dest ++ window (mem s.kernel) addr len), cleared len s)
  lread_loop-window zero addr residue len count dest s f r top c h = absurd (omega arith)
  lread_loop-window (suc fuel) addr residue zero count dest s f r top c h =
      unfold lread_loop in (let e : count + 0 ≡ count = omega arith in rw (e, append-nil))
  lread_loop-window (suc fuel) addr residue (suc len) count dest s f r top c h =
      rw
        (
          r,
          lread_loop-mapped fuel addr (suc len) count dest s (omega arith)
              (h addr (omega arith) (omega arith)),
          next,
          small,
        )
        ((rw (cleared_twice (suc len - m) s) at (
            lread_loop-window fuel (align addr + 8) 0 (suc len - m) (count + m) before
              (record s { errno = 0 }) (omega arith) (omega arith) (omega arith) (omega arith)
              (λ i p q. h i (omega arith) (omega arith))))
          ∙ ap₂ (λ n x. some ((pos n, x), cleared (suc len) s)) total joined)
    where
      m : ℕ
      m = min (8 - addr % 8) (suc len)

      next : u64 (align addr + 8) ≡ align addr + 8
      next = omega arith

      small : u32 (count + m) ≡ count + m
      small = omega arith

      total : count + m + (suc len - m) ≡ count + suc len
      total = omega arith

      before : List ℕ
      before = dest ++ window (mem s.kernel) addr m

      joined :
          before ++ window (mem s.kernel) (align addr + 8) (suc len - m)
          ≡ dest ++ window (mem s.kernel) addr (suc len)
      joined =
          append_assoc dest (window (mem s.kernel) addr m) _
          ∙ ap (λ x. dest ++ x) (sym (rest-window (mem s.kernel) addr (suc len) m refl))

  -- Where every byte of the range is mapped, pink_vm_lread returns `len` at any alignment, and has
  -- stored exactly the bytes of the tracee's memory from `addr` on; the kernel is as it was. The
  -- range is less than 4 GiB, so that the counter of type unsigned int holds its length, and
  -- 8 addresses or more follow it.
  pub lread-window :
      (addr len : ℕ) (s : State K)
      → addr + len + 8 ≤ 2 ^ 64
      → len < 2 ^ 32
      → ((i : ℕ) → addr ≤ i → i < addr + len → mapped s.kernel i ≡ true)
      → lread sys pid addr len s ≡ some ((pos len, window (mem s.kernel) addr len), cleared len s)
  unfolding lread
  lread-window addr len s top c h =
      let e : 0 + len ≡ len = omega arith in
      rw e at (
        lread_loop-window (suc len) addr (addr % 8) len 0 [] s (omega arith) refl top (omega arith)
          h)

  lread_loop-unmapped :
      (fuel addr residue len count i : ℕ) (dest : List ℕ) (s : State K)
      → len < fuel
      → residue ≡ addr % 8
      → addr + len + 8 ≤ 2 ^ 64
      → addr ≤ i
      → i < addr + len
      → mapped s.kernel i ≡ false
      → Fails s.kernel (lread_loop sys pid fuel addr residue len count dest s)
  lread_loop-unmapped zero addr residue len count i dest s f r top p q h = absurd (omega arith)
  lread_loop-unmapped (suc fuel) addr residue zero count i dest s f r top p q h =
      absurd (omega arith)
  lread_loop-unmapped (suc fuel) addr residue (suc len) count i dest s f r top p q h =
      elim (Bool-cases (mapped s.kernel addr)) [
        | inl here ↦
            let far : i / 8 ≢ addr / 8 =
              (λ e. false≢true (sym h ∙ peek.grain s.kernel i addr e ∙ here)) in
            let next : u64 (align addr + 8) ≡ align addr + 8 = omega arith in
            rw (r, lread_loop-mapped fuel addr (suc len) count dest s (omega arith) here, next)
              (lread_loop-unmapped fuel (align addr + 8) 0 (suc len - min (8 - addr % 8) (suc len))
                (u32 (count + min (8 - addr % 8) (suc len))) i
                (dest ++ window (mem s.kernel) addr (min (8 - addr % 8) (suc len)))
                (record s { errno = 0 }) (omega arith) (omega arith) (omega arith) (omega arith)
                (omega arith) h)
        | inr gone ↦ rw r (lread_loop-stops fuel addr (suc len) count dest s (omega arith) gone)
      ]

  -- Where a byte of the range is not mapped, pink_vm_lread returns -1, at any alignment and however
  -- much was read before, and leaves an errno other than 0 and the kernel as it was. 8
  -- addresses or more follow the range.
  pub lread_unmapped :
      (addr len i : ℕ) (s : State K)
      → addr + len + 8 ≤ 2 ^ 64
      → addr ≤ i
      → i < addr + len
      → mapped s.kernel i ≡ false
      → Fails s.kernel (lread sys pid addr len s)
  unfolding lread
  lread_unmapped addr len i s top p q h =
      lread_loop-unmapped (suc len) addr (addr % 8) len 0 i [] s (omega arith) refl top p q h
