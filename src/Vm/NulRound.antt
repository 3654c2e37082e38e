-- ===== src/Vm/NulRound.antt =====
-- One round of pink_vm_lread_nul of pinktrace/vm.c.
use pinktrace.Prelude.{
  ◌≢◌, zero, suc, refl, none, u32, u64, List, ◌++◌, sym, ℕ, ◌+◌, ◌-◌, ◌/◌, ◌%◌, ◌<◌, ◌≡◌, arith, ap,
  min, Bool, true, false, some, drop, pos, le_bytes, window, ◌∙◌, ◌==◌,
}
use pinktrace.System.{State, PtraceCall}
use pinktrace.System.Loop.{◌>>=◌}
use pinktrace.Vm.{lread_nul_loop, align, slice, find_nul}
use pinktrace.Vm.Memory.{PeekReads, drop-window, read_word_data-mapped}
use pinktrace.Word.{read_word_data}
use pinktrace.Vm.Lread.{slice-window}

pub find_nul-window :
    (f : ℕ → ℕ) (a n i : ℕ)
    → i < n
    → f (a + i) ≡ 0
    → ((j : ℕ) → j < i → f (a + j) ≢ 0)
    → find_nul (window f a n) ≡ some i
find_nul-window f a zero i b z h = absurd (omega arith)
find_nul-window f a (suc n) zero b z h =
    let here : a + 0 ≡ a = omega arith in
    let zero_byte : (f a == 0) ≡ true = rw (sym (ap f here) ∙ z) refl in rw zero_byte refl
find_nul-window f a (suc n) (suc i) b z h =
    let here : a + 0 ≡ a = omega arith in
    let other : (f a == 0) ≡ false = ground (arith, rw here at (h 0 (omega arith))) in
    let next : a + suc i ≡ suc a + i = omega arith in
    let rest = find_nul-window f (suc a) n i (omega arith) (rw next at z) (λ j c.
      let next' : suc a + j ≡ a + suc j = omega arith in rw next' (h (suc j) (omega arith))) in
    rw (other, rest) refl

pub find_nul-window-none :
    (f : ℕ → ℕ) (a n : ℕ) → ((j : ℕ) → j < n → f (a + j) ≢ 0) → find_nul (window f a n) ≡ none
find_nul-window-none f a zero h = refl
find_nul-window-none f a (suc n) h =
    let here : a + 0 ≡ a = omega arith in
    let other : (f a == 0) ≡ false = ground (arith, rw here at (h 0 (omega arith))) in
    let rest = find_nul-window-none f (suc a) n (λ j c.
      let next : suc a + j ≡ a + suc j = omega arith in rw next (h (suc j) (omega arith))) in
    rw (other, rest) refl

module _ {K : Type 0} (sys : PtraceCall K) (pid : ℕ) (mem : K → ℕ → ℕ) (mapped : K → ℕ → Bool)
    (peek : PeekReads sys pid mem mapped) where
  -- One round on a mapped word: the bytes from the address on to the end of the word.
  round_word :
      (addr len : ℕ) (s : State K)
      → mapped s.kernel addr ≡ true
      → (v : ℕ) × (read_word_data sys pid (align addr) s
          ≡ ((pos 0, some v), record s { errno = 0 }))
        × (drop (addr % 8) (le_bytes 8 v) ≡ window (mem s.kernel) addr (8 - addr % 8))
        × (slice (addr % 8) (min (8 - addr % 8) len) (read_word_data sys pid (align addr) s).0.1
            ≡ window (mem s.kernel) addr (min (8 - addr % 8) len))
  round_word addr len s h =
      let a : align addr % 8 ≡ 0 = omega arith in
      let same : align addr / 8 ≡ addr / 8 = omega arith in
      let h' : mapped s.kernel (align addr) ≡ true =
        peek.grain s.kernel (align addr) addr same ∙ h in
      let (v, e, b) = read_word_data-mapped sys pid mem mapped peek s (align addr) a h' in
      let back : align addr + addr % 8 ≡ addr = omega arith in
      (
        v,
        e,
        ap (drop (addr % 8)) b
            ∙ drop-window (mem s.kernel) (align addr) (addr % 8) 8 (omega arith)
            ∙ ap (λ x. window (mem s.kernel) x (8 - addr % 8)) back,
        ap (λ x. slice (addr % 8) (min (8 - addr % 8) len) x.0.1) e
            ∙ slice-window (mem s.kernel) addr (min (8 - addr % 8) len) v (omega arith) b,
      )

  module _ (fuel addr len count start : ℕ) (dest : List ℕ) (s : State K) (some_left : 0 < len)
      (there : mapped s.kernel addr ≡ true) where
    -- The word has the zero byte.
    pub round-found :
        (i : ℕ)
        → find_nul (window (mem s.kernel) addr (8 - addr % 8)) ≡ some i
        → lread_nul_loop sys pid (suc fuel) addr (addr % 8) len count start dest s
          ≡ some (
            (
              pos (start + (addr % 8 + i)),
              dest ++ window (mem s.kernel) addr (min (8 - addr % 8) len),
            ),
            record s { errno = 0 },
          )
    unfolding lread_nul_loop
    round-found i z =
        let (v, e, tail, stored) = round_word addr len s there in
        let going : (len == 0) ≡ false = ground arith in
        let place : start + (addr % 8 + i + 1) - 1 ≡ start + (addr % 8 + i) = omega arith in
        rw (lread_nul_loop, going, ◌>>=◌, e, tail, z, place)
          (ap (λ bs. some ((pos (start + (addr % 8 + i)), dest ++ bs), record s { errno = 0 }))
            stored)

    -- The word has none.
    pub round-passed :
        find_nul (window (mem s.kernel) addr (8 - addr % 8)) ≡ none
        → let m = min (8 - addr % 8) len in
          lread_nul_loop sys pid (suc fuel) addr (addr % 8) len count start dest s
          ≡ lread_nul_loop sys pid fuel
              (u64 (align addr + 8))
              0
              (len - m)
              (u32 (count + m))
              (start + m)
              (dest ++ window (mem s.kernel) addr m)
              (record s { errno = 0 })
    unfolding lread_nul_loop
    round-passed z =
        let (v, e, tail, stored) = round_word addr len s there in
        let going : (len == 0) ≡ false = ground arith in
        let m = min (8 - addr % 8) len in
        rw (lread_nul_loop, going, ◌>>=◌, e, tail, z)
          (ap
            (λ bs.
              lread_nul_loop sys pid fuel (u64 (align addr + 8)) 0 (len - m) (u32 (count + m))
                (start + m) (dest ++ bs) (record s { errno = 0 }))
            stored)
