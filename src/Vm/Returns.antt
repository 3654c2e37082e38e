-- ===== src/Vm/Returns.antt =====
-- The loops of pinktrace/vm.c end, whatever the kernel answers.
use pinktrace.Prelude.{
  ℕ, zero, suc, ◌+◌, ◌-◌, ◌%◌, ◌<◌, ◌≡◌, refl, arith, inl, inr, min, false, Bool-cases, Option,
  Option-cases, some, List, ◌++◌, ◌==◌, drop, u32, u64, is_neg, le_bytes, get_or, window, from_le,
  [],
}
use pinktrace.System.{State, PtraceCall}
use pinktrace.System.Loop.{◌>>=◌}
use pinktrace.Word.{read_word_data, write_word_data}
use pinktrace.Vm.{
  lread, lread_loop, lread_nul, lread_nul_loop, lwrite, lwrite_loop, align, find_nul,
}

-- The code has returned.
abbrev pub Returns {ℓ} : {A : Type ℓ} → Option A → Type ℓ
Returns {A = A} run = (a : A) × (run ≡ some a)

module _ {K : Type 0} (sys : PtraceCall K) (pid : ℕ) where
  lread_loop-Returns :
      (fuel addr residue len count : ℕ) (dest : List ℕ) (s : State K)
      → len < fuel
      → residue < 8
      → Returns (lread_loop sys pid fuel addr residue len count dest s)
  unfolding lread_loop
  lread_loop-Returns zero addr residue len count dest s f r = absurd (omega arith)
  lread_loop-Returns (suc fuel) addr residue zero count dest s f r = (_, refl)
  lread_loop-Returns (suc fuel) addr residue (suc len) count dest s f r =
      let going : (suc len == 0) ≡ false = ground arith in
      let m = min (8 - residue) (suc len) in
      elim (Bool-cases (is_neg (read_word_data sys pid (align addr) s).0.0)) [
        | inl e ↦ rw (lread_loop, going, ◌>>=◌, e) (_, refl)
        | inr e ↦
            rw (lread_loop, going, ◌>>=◌, e)
              (lread_loop-Returns fuel (u64 (align addr + 8)) 0 (suc len - m) (u32 (count + m)) _ _
                (omega arith) (omega arith))
      ]

  lread_nul_loop-Returns :
      (fuel addr residue len count start : ℕ) (dest : List ℕ) (s : State K)
      → len < fuel
      → residue < 8
      → Returns (lread_nul_loop sys pid fuel addr residue len count start dest s)
  unfolding lread_nul_loop
  lread_nul_loop-Returns zero addr residue len count start dest s f r = absurd (omega arith)
  lread_nul_loop-Returns (suc fuel) addr residue zero count start dest s f r = (_, refl)
  lread_nul_loop-Returns (suc fuel) addr residue (suc len) count start dest s f r =
      let going : (suc len == 0) ≡ false = ground arith in
      let m = min (8 - residue) (suc len) in
      let read = read_word_data sys pid (align addr) s in
      elim (Bool-cases (is_neg read.0.0)) [
        | inl e ↦ rw (lread_nul_loop, going, ◌>>=◌, e) (_, refl)
        | inr e ↦ elim (Option-cases (find_nul (drop residue (le_bytes 8 (get_or 0 read.0.1))))) [
          | inr (i, g) ↦ rw (lread_nul_loop, going, ◌>>=◌, e, g) (_, refl)
          | inl g ↦
              rw (lread_nul_loop, going, ◌>>=◌, e, g)
                (lread_nul_loop-Returns fuel (u64 (align addr + 8)) 0 (suc len - m)
                  (u32 (count + m)) _ _ _ (omega arith) (omega arith))
        ]
      ]

  lwrite_loop-Returns :
      (junk : ℕ → List ℕ) (src : ℕ → ℕ) (fuel addr residue off len count : ℕ) (s : State K)
      → len < fuel
      → residue < 8
      → Returns (lwrite_loop sys pid junk src fuel addr residue off len count s)
  unfolding lwrite_loop
  lwrite_loop-Returns junk src zero addr residue off len count s f r = absurd (omega arith)
  lwrite_loop-Returns junk src (suc fuel) addr residue off zero count s f r = (_, refl)
  lwrite_loop-Returns junk src (suc fuel) addr residue off (suc len) count s f r =
      let going : (suc len == 0) ≡ false = ground arith in
      let m = min (8 - residue) (suc len) in
      let x = window src (off + residue) m ++ drop m (junk (align addr)) in
      elim (Bool-cases (is_neg (write_word_data sys pid (align addr) (from_le x) s).0)) [
        | inl e ↦ rw (lwrite_loop, going, ◌>>=◌, e) (_, refl)
        | inr e ↦
            rw (lwrite_loop, going, ◌>>=◌, e)
              (lwrite_loop-Returns junk src fuel (u64 (align addr + 8)) 0 (off + m) (suc len - m)
                (u32 (count + m)) _ (omega arith) (omega arith))
      ]

  -- Whatever the kernel does, pink_vm_lread, pink_vm_lread_nul and pink_vm_lwrite return: len + 1
  -- rounds of their loops are enough.
  pub lread-lread_nul-lwrite-Returns :
      (junk : ℕ → List ℕ) (src : ℕ → ℕ) (addr len : ℕ) (s : State K)
      → Returns (lread sys pid addr len s)
        × Returns (lread_nul sys pid addr len s)
        × Returns (lwrite sys pid junk src addr len s)
  unfolding lread lread_nul lwrite
  lread-lread_nul-lwrite-Returns junk src addr len s = (
    lread_loop-Returns (suc len) addr (addr % 8) len 0 [] s (omega arith) (omega arith),
    lread_nul_loop-Returns (suc len) addr (addr % 8) len 0 0 [] s (omega arith) (omega arith),
    lwrite_loop-Returns junk src (suc len) addr (addr % 8) 0 len 0 s (omega arith) (omega arith),
  )
