-- ===== src/Vm/Lwrite/Partial.antt =====
-- pink_vm_lwrite of pinktrace/vm.c on a range that is mapped in part.
use mathlib.Core.Path.{fun_ext}
use pinktrace.Prelude.{
  ℕ, zero, suc, ◌+◌, ◌-◌, ◌%◌, ◌^◌, ◌≤◌, ◌<◌, ◌≡◌, ◌≢◌, refl, arith, ap, ap₂, sym, ◌∙◌, inl, inr,
  min, Bool, Bool-cases, true, false, some, ◌++◌, drop, ◌==◌, if◌then◌else◌, ltb, leb, ◌&&◌, ℤ, pos,
  u32, u64, from_le, window,
}
use pinktrace.System.{Request, State, PtraceCall}
use pinktrace.System.Loop.{◌>>=◌}
use pinktrace.Trace.Status.{folded, call_fails}
use pinktrace.Word.{write_word_data}
use pinktrace.Vm.{lwrite, lwrite_loop, align}
use pinktrace.Vm.Lwrite.{PokeWrites, patched, patched-mem, patched-patched, lwrite_loop_round}

-- The result after `n` bytes and an error: where n is 0, the -1 of an unsigned int.
abbrev pub short_count : ℕ → ℤ
short_count n = pos (if ltb 0 n then n else 2 ^ 32 - 1)

patched-none : (src pad mem : ℕ → ℕ) (addr n i : ℕ) → n ≡ 0 → patched src pad mem addr n i ≡ mem i
unfolding patched
patched-none src pad mem addr n i e = ground (arith, e)

-- Whole words leave no rest.
whole_words :
    (src pad mem : ℕ → ℕ) (addr n i : ℕ)
    → n % 8 ≡ 0
    → patched src pad mem addr n i
      ≡ (if leb addr i && ltb i (addr + n) then src (i - addr) else mem i)
unfolding patched
whole_words src pad mem addr n i words = ground (arith, words)

module _ {K : Type 0} (sys : PtraceCall K) (pid : ℕ) (mem : K → ℕ → ℕ) (mapped : K → ℕ → Bool)
    (poke : PokeWrites sys pid mem mapped) (src pad : ℕ → ℕ) (src_byte : (i : ℕ) → src i < 256)
    (pad_byte : (i : ℕ) → pad i < 256) where
  -- The round that fails.
  lwrite_loop-faults :
      (fuel addr off len count : ℕ) (s : State K)
      → addr % 8 ≡ 0
      → 0 < len
      → mapped s.kernel addr ≡ false
      → (e : ℕ) × (lwrite_loop sys pid (λ a. window pad a 8) src (suc fuel) addr 0 off len count s
          ≡ some (short_count count, record s { errno = suc e }))
  unfolding lwrite_loop write_word_data
  lwrite_loop-faults fuel addr off len count s a p gone =
      let s' : State K = record s { errno = 0 } in
      let going : (len == 0) ≡ false = ground arith in
      let start : align addr ≡ addr = omega arith in
      let e = folded (poke.error s' addr) in
      let x =
        from_le
          (window src (off + 0) (min (8 - 0) len) ++ drop (min (8 - 0) len) (window pad addr 8)) in
      (
        e,
        rw
            (
              lwrite_loop,
              going,
              ◌>>=◌,
              start,
              call_fails sys Request.pokedata pid addr x s s' (poke.error s' addr)
                  (poke.faults s' addr x a gone),
            )
            refl,
      )

  lwrite_loop-stops :
      (fuel addr off len count n : ℕ) (s : State K)
      → len < fuel
      → addr % 8 ≡ 0
      → addr + len + 8 ≤ 2 ^ 64
      → count + len < 2 ^ 32
      → n % 8 ≡ 0
      → n < len
      → ((i : ℕ) → addr ≤ i → i < addr + n → mapped s.kernel i ≡ true)
      → mapped s.kernel (addr + n) ≡ false
      → (t : State K) × (lwrite_loop sys pid (λ a. window pad a 8) src fuel addr 0 off len count s
          ≡ some (short_count (count + n), t))
        × ((i : ℕ) → mem t.kernel i ≡ patched (λ j. src (off + j)) pad (mem s.kernel) addr n i)
        × (t.errno ≢ 0)
  lwrite_loop-stops zero addr off len count n s f a top c words q there gone = absurd (omega arith)
  lwrite_loop-stops (suc fuel) addr off len count n s f a top c words q there gone =
      elim (Bool-cases (n == 0)) [
        | inl first ↦
            let none_yet : n ≡ 0 = ground arith in
            let here : addr + n ≡ addr = omega (arith, none_yet) in
            let total : count ≡ count + n = omega (arith, none_yet) in
            let (e, run) =
              lwrite_loop-faults fuel addr off len count s a (omega arith) (rw here at gone) in
            (
              record s { errno = suc e },
              run ∙ ap (λ x. some (short_count x, record s { errno = suc e })) total,
              λ i. sym (patched-none (λ j. src (off + j)) pad (mem s.kernel) addr n i none_yet),
              λ h. omega (arith, h),
            )
        | inr later ↦
            let more : 8 ≤ n = ground arith in
            let m = min 8 len in
            let eight : m ≡ min 8 n = omega arith in
            let next : u64 (addr + 8) ≡ addr + 8 = omega arith in
            let small : u32 (count + m) ≡ count + m = omega arith in
            let place : addr + 8 + (n - m) ≡ addr + n = omega arith in
            let total : count + m + (n - m) ≡ count + n = omega arith in
            let (k, e, g, same) =
              lwrite_loop_round sys pid mem mapped poke src pad src_byte pad_byte fuel addr off len
                count s a (omega arith) (there addr (omega arith) (omega arith)) in
            let (t, e', g', failed) =
              lwrite_loop-stops fuel (addr + 8) (off + m) (len - m) (count + m) (n - m)
                (record { errno = 0; kernel = k }) (omega arith) (omega arith) (omega arith)
                (omega arith) (omega arith) (omega arith)
                (λ i p r. same i ∙ there i (omega arith) (omega arith))
                (same (addr + 8 + (n - m)) ∙ (rw place gone)) in
            (
              t,
              e
                  ∙ ap₂
                      (λ x c.
                        lwrite_loop sys pid (λ b. window pad b 8) src fuel x 0 (off + m) (len - m) c
                          (record { errno = 0; kernel = k }))
                      next small
                  ∙ e'
                  ∙ ap (λ x. some (short_count x, t)) total,
              λ i.
                  g' i
                  ∙ patched-mem (λ j. src (off + m + j)) pad (mem k)
                      (patched (λ j. src (off + j)) pad (mem s.kernel) addr m) (addr + 8) (n - m) i
                      (g i)
                  ∙ (rw eight (patched-patched src pad (mem s.kernel) addr off n i)),
              failed,
            )
      ]

  -- At an address that is a multiple of 8, where the range is mapped for `n` bytes, a multiple of 8 too,
  -- and its next word is not: pink_vm_lwrite stores exactly the source's first n bytes and changes
  -- nothing else, returns n, or 4294967295 where n is 0, and leaves errno other than 0. The range is
  -- below 4 GiB, and 8 addresses or more follow it.
  pub lwrite-stops :
      (addr len n : ℕ) (s : State K)
      → addr % 8 ≡ 0
      → addr + len + 8 ≤ 2 ^ 64
      → len < 2 ^ 32
      → n % 8 ≡ 0
      → n < len
      → ((i : ℕ) → addr ≤ i → i < addr + n → mapped s.kernel i ≡ true)
      → mapped s.kernel (addr + n) ≡ false
      → (t : State K) × (lwrite sys pid (λ a. window pad a 8) src addr len s
          ≡ some (short_count n, t))
        × ((i : ℕ)
            → mem t.kernel i
              ≡ (if leb addr i && ltb i (addr + n) then src (i - addr) else mem s.kernel i))
        × (t.errno ≢ 0)
  unfolding lwrite patched
  lwrite-stops addr len n s a top b words q there gone =
      let plain : 0 + n ≡ n = omega arith in
      let same_src : Path (ℕ → ℕ) (λ j. src (0 + j)) src = fun_ext λ j. ap src (omega arith) in
      let (t, e, g, failed) =
        lwrite_loop-stops (suc len) addr 0 len 0 n s (omega arith) a top (omega arith) words q there
          gone in
      (
        t,
        ap (λ r. lwrite_loop sys pid (λ b. window pad b 8) src (suc len) addr r 0 len 0 s) a
            ∙ e
            ∙ ap (λ x. some (short_count x, t)) plain,
        λ i.
            g i
            ∙ ap (λ f. patched f pad (mem s.kernel) addr n i) same_src
            ∙ whole_words src pad (mem s.kernel) addr n i words,
        failed,
      )
