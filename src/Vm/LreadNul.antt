-- ===== src/Vm/LreadNul.antt =====
-- pink_vm_lread_nul of pinktrace/vm.c on a string.
use mathlib.Core.List.{append_assoc}
use pinktrace.Prelude.{
  ◌≢◌, zero, suc, refl, u32, u64, List, ◌++◌, [], ◌≤◌, ◌^◌, if◌then◌else◌, ltb, inl, inr,
  Bool-cases, sym, ap₂, ℕ, ◌+◌, ◌-◌, ◌%◌, ◌<◌, ◌≡◌, arith, ap, min, Bool, true, some, pos, window,
  ◌∙◌,
}
use pinktrace.System.{State, PtraceCall}
use pinktrace.Vm.{lread_nul, lread_nul_loop, align, find_nul}
use pinktrace.Vm.Memory.{PeekReads, window-append}
use pinktrace.Vm.NulRound.{find_nul-window, find_nul-window-none, round-found, round-passed}

module _ {K : Type 0} (sys : PtraceCall K) (pid : ℕ) (mem : K → ℕ → ℕ) (mapped : K → ℕ → Bool)
    (peek : PeekReads sys pid mem mapped) where
  -- A zero byte in the first word, in a memory of any size.
  pub lread_nul_first :
      (addr len i : ℕ) (s : State K)
      → 0 < len
      → mapped s.kernel addr ≡ true
      → find_nul (window (mem s.kernel) addr (8 - addr % 8)) ≡ some i
      → lread_nul sys pid addr len s
        ≡ some (
          (pos (addr % 8 + i), window (mem s.kernel) addr (min (8 - addr % 8) len)),
          record s { errno = 0 },
        )
  unfolding lread_nul
  lread_nul_first addr len i s p h z =
      let plain : 0 + (addr % 8 + i) ≡ addr % 8 + i = omega arith in
      rw plain at (round-found sys pid mem mapped peek len addr len 0 0 [] s p h i z)

  -- How far from `addr` the word with the zero byte at `addr + n` reaches.
  reach : (addr n : ℕ) → ℕ
  reach addr n = align (addr + n) + 8 - addr

  joined :
      (f : ℕ → ℕ) (addr len n : ℕ) (dest : List ℕ)
      → 8 ≤ addr % 8 + n
      → 8 - addr % 8 < len
      → align (addr + n) < addr + len
      → let m = 8 - addr % 8 in
        (dest ++ window f addr m)
          ++ window f (align addr + 8) (min (reach (align addr + 8) (n - m)) (len - m))
        ≡ dest ++ window f addr (min (reach addr n) len)
  unfolding reach
  joined f addr len n dest far more w =
      let m = 8 - addr % 8 in
      let k = min (reach (align addr + 8) (n - m)) (len - m) in
      let same : align addr + 8 + (n - m) ≡ addr + n = omega arith in
      let place : addr + m ≡ align addr + 8 = omega arith in
      let whole : min (align (addr + n) + 8 - addr) len
          ≡ m + min (align (addr + n) + 8 - (align addr + 8)) (len - m) =
        omega arith in
      append_assoc dest (window f addr m) _
      ∙ ap (λ x. dest ++ x) (rw (same, whole) (sym (window-append f addr m _ ∙ (rw place refl))))

  lread_nul_loop-string :
      (fuel addr residue len count start n : ℕ) (dest : List ℕ) (s : State K)
      → len < fuel
      → residue ≡ addr % 8
      → addr + n + 16 ≤ 2 ^ 64
      → align (addr + n) < addr + len
      → 0 < len
      → mem s.kernel (addr + n) ≡ 0
      → ((j : ℕ) → j < n → mem s.kernel (addr + j) ≢ 0)
      → ((i : ℕ) → addr ≤ i → i ≤ addr + n → mapped s.kernel i ≡ true)
      → lread_nul_loop sys pid fuel addr residue len count start dest s
        ≡ some (
          (
            pos (start + (if ltb (addr % 8 + n) 8 then addr % 8 + n else n)),
            dest ++ window (mem s.kernel) addr (min (reach addr n) len),
          ),
          record s { errno = 0 },
        )
  unfolding reach
  lread_nul_loop-string zero addr residue len count start n dest s f r top w p z h there =
      absurd (omega arith)
  lread_nul_loop-string (suc fuel) addr residue len count start n dest s f r top w p z h there =
      let here : mapped s.kernel addr ≡ true = there addr (omega arith) (omega arith) in
      elim (Bool-cases (ltb (addr % 8 + n) 8)) [
        | inl inside ↦
            let found = find_nul-window (mem s.kernel) addr (8 - addr % 8) n (ground arith) z h in
            let end : align (addr + n) + 8 - addr ≡ 8 - addr % 8 = ground arith in
            rw (r, inside, end)
              (round-found sys pid mem mapped peek fuel addr len count start dest s p here n found)
        | inr beyond ↦
            let far : 8 ≤ addr % 8 + n = ground arith in
            let m = 8 - addr % 8 in
            let missing = find_nul-window-none (mem s.kernel) addr m (λ j c. h j (omega arith)) in
            let more : m < len = omega arith in
            let whole : min (8 - addr % 8) len ≡ m = omega arith in
            let next : u64 (align addr + 8) ≡ align addr + 8 = omega arith in
            let same : align addr + 8 + (n - m) ≡ addr + n = omega arith in
            let k = min (reach (align addr + 8) (n - m)) (len - m) in
            let ih =
              lread_nul_loop-string fuel (align addr + 8) 0 (len - m) (u32 (count + m)) (start + m)
                (n - m) (dest ++ window (mem s.kernel) addr m) (record s { errno = 0 })
                (omega arith) (omega arith) (omega arith) (omega arith) (omega arith) (rw same z)
                (λ j c.
                  let shift : align addr + 8 + j ≡ addr + (m + j) = omega arith in
                  rw shift (h (m + j) (omega arith)))
                (λ i c d. there i (omega arith) (omega arith)) in
            let total : start
                  + m
                  + (if ltb ((align addr + 8) % 8 + (n - m)) 8
                      then (align addr + 8) % 8 + (n - m)
                      else n - m)
                ≡ start + n =
              ground arith in
            rw (r, beyond)
              (round-passed sys pid mem mapped peek fuel addr len count start dest s p here missing
                ∙ (rw (whole, next) ih)
                ∙ ap₂ (λ x bs. some ((pos x, bs), record s { errno = 0 })) total
                    (joined (mem s.kernel) addr len n dest (omega arith) more w))
      ]

  -- Where the first zero byte from `addr` on is at `addr + n`, the bytes up to it are mapped, and the
  -- word that holds it starts within the `len` bytes asked for: pink_vm_lread_nul returns n, and has
  -- stored the bytes of the tracee's memory up to the end of that word, or `len` of them; the kernel
  -- is as it was. A string that ends in its first word is returned as longer by the distance of
  -- `addr` from the start of that word. Here `addr + n + 16` is at most 2 ^ 64.
  pub lread_nul-string :
      (addr len n : ℕ) (s : State K)
      → addr + n + 16 ≤ 2 ^ 64
      → align (addr + n) < addr + len
      → 0 < len
      → mem s.kernel (addr + n) ≡ 0
      → ((j : ℕ) → j < n → mem s.kernel (addr + j) ≢ 0)
      → ((i : ℕ) → addr ≤ i → i ≤ addr + n → mapped s.kernel i ≡ true)
      → lread_nul sys pid addr len s
        ≡ some (
          (
            pos (if ltb (addr % 8 + n) 8 then addr % 8 + n else n),
            window (mem s.kernel) addr (min (align (addr + n) + 8 - addr) len),
          ),
          record s { errno = 0 },
        )
  unfolding lread_nul reach
  lread_nul-string addr len n s top w p z h there =
      let plain : 0 + (if ltb (addr % 8 + n) 8 then addr % 8 + n else n)
          ≡ (if ltb (addr % 8 + n) 8 then addr % 8 + n else n) =
        omega arith in
      rw plain at (
        lread_nul_loop-string (suc len) addr (addr % 8) len 0 0 n [] s (omega arith) refl top w p z
          h there)
