-- ===== src/Vm/CreadNul.antt =====
-- pink_vm_cread_nul of pinktrace/vm.c on a string.
use pinktrace.Prelude.{
  ℕ, zero, suc, ◌+◌, ◌-◌, ◌^◌, ◌≤◌, ◌<◌, ◌≡◌, ◌≢◌, refl, sym, ap, ◌∙◌, arith, inl, inr, Bool, true,
  false, Bool-cases, Option, some, none, List, [], ◌==◌, ltb, pos, negsuc, ℤ, sext32, u64, window,
}
use pinktrace.System.{State, ReadvCall}
use pinktrace.System.Loop.{◌>>=◌}
use pinktrace.Abi.{Arch}
use pinktrace.Vm.{chunk_len, find_nul, cread_nul, cread_nul_loop, process_vm_readv, setup_addr}
use pinktrace.Vm.Memory.{window-append, take-window}
use pinktrace.Vm.NulRound.{find_nul-window, find_nul-window-none}
use pinktrace.Vm.Chunk.{chunk_len-page}

-- process_vm_readv(2) of a range that is mapped gives the bytes of the memory.
abbrev pub ReadvWhole : {K : Type 0} → ReadvCall K → ℕ → (K → ℕ → ℕ) → (K → ℕ → Bool) → Type 0
ReadvWhole {K} readv pid mem mapped =
    (s : State K) (a len : ℕ)
    → ((i : ℕ) → a ≤ i → i < a + len → mapped s.kernel i ≡ true)
    → readv pid a len s ≡ ((pos len, window (mem s.kernel) a len), s)

-- Where the first call fails with -1, pink_vm_cread_nul ends with its result.
pub cread_nul_refused :
    {K : Type 0} (have : Bool) (sys : ReadvCall K) (arch : Arch) (abi pid addr len : ℕ)
    (s : State K)
    → 0 < len
    → (n : ℕ) × ((out : List ℕ) (t : State K)
        → process_vm_readv have sys pid (setup_addr arch abi addr) n s ≡ ((negsuc 0, out), t)
        → cread_nul have sys arch abi pid addr len s ≡ some ((negsuc 0, out), t))
unfolding cread_nul cread_nul_loop
cread_nul_refused have sys arch abi pid addr len s p =
    let going : (len == 0) ≡ false = ground arith in
    (
      sext32 (chunk_len have sys (setup_addr arch abi addr) len),
      λ out t failed. rw (cread_nul, cread_nul_loop, going, ◌>>=◌, failed) refl,
    )

module _ {K : Type 0} (sys : ReadvCall K) (pid : ℕ) (mem : K → ℕ → ℕ) (mapped : K → ℕ → Bool)
    (reads : ReadvWhole sys pid mem mapped) (addr : ℕ) (s : State K) where
  -- A run that returns n + 1 and has stored that many bytes of the memory or more, up to `len`.
  pub record Ends (len n : ℕ) (run : Option ((ℤ × List ℕ) × State K)) : Type 0 where
    pub stored : ℕ
    pub whole : n < stored
    pub fits : stored ≤ len
    pub returns : run ≡ some ((pos (suc n), window (mem s.kernel) addr stored), s)

  -- One round: the chunk that it asks for is read whole.
  module _ (fuel len count : ℕ) (some_left : 0 < len) (small : len < 2 ^ 31)
      (top : addr + count + len < 2 ^ 64)
      (there : (i : ℕ) → addr ≤ i → i < addr + count + len → mapped s.kernel i ≡ true) where
    chunk : ℕ
    chunk = chunk_len true sys addr len

    chunk_fits : (0 < chunk) × (chunk ≤ len)
    unfolding chunk
    chunk_fits = let (p, q, r, page) = chunk_len-page true sys addr len some_left small in (p, r)

    call :
        process_vm_readv true sys pid (addr + count) (sext32 chunk) s
        ≡ ((pos chunk, window (mem s.kernel) (addr + count) chunk), s)
    unfolding process_vm_readv
    call =
        let asked : sext32 chunk ≡ chunk = ground (arith, chunk_fits.1) in
        rw asked (
          reads s (addr + count) chunk
            (λ i a b. there i (omega arith) (omega (arith, chunk_fits.1))))

    chunk-found :
        (i : ℕ)
        → find_nul (window (mem s.kernel) (addr + count) chunk) ≡ some i
        → cread_nul_loop true sys pid addr
            (suc fuel)
            (addr + count)
            len
            count
            (window (mem s.kernel) addr count)
            s
          ≡ some ((pos (count + i + 1), window (mem s.kernel) addr (count + chunk)), s)
    unfolding cread_nul_loop chunk
    chunk-found i found =
        let going : (len == 0) ≡ false = ground arith in
        let all = take-window (mem s.kernel) (addr + count) chunk chunk (omega arith) in
        let joined = sym (window-append (mem s.kernel) addr count chunk) in
        rw (cread_nul_loop, going, ◌>>=◌, call, all, found) (rw (call, joined) refl)

    chunk-passed :
        find_nul (window (mem s.kernel) (addr + count) chunk) ≡ none
        → cread_nul_loop true sys pid addr
            (suc fuel)
            (addr + count)
            len
            count
            (window (mem s.kernel) addr count)
            s
          ≡ cread_nul_loop true sys pid addr fuel
              (addr + (count + chunk))
              (len - chunk)
              (count + chunk)
              (window (mem s.kernel) addr (count + chunk))
              s
    unfolding cread_nul_loop chunk
    chunk-passed missing =
        let going : (len == 0) ≡ false = ground arith in
        let all = take-window (mem s.kernel) (addr + count) chunk chunk (omega arith) in
        let joined = sym (window-append (mem s.kernel) addr count chunk) in
        let base : u64 (addr + count + chunk) ≡ addr + (count + chunk) =
          omega (arith, top, chunk_fits.1) in
        let left : u64 (len + 2 ^ 64 - chunk) ≡ len - chunk = omega (arith, small, chunk_fits.1) in
        rw (cread_nul_loop, going, ◌>>=◌, call, all, missing) (rw (call, base, left, joined) refl)

  -- The string ends in this chunk or goes on in the next.
  cread_nul_loop-string :
      (fuel len count n : ℕ)
      → len < fuel
      → addr + count + len < 2 ^ 64
      → len < 2 ^ 31
      → count ≤ n
      → n < count + len
      → mem s.kernel (addr + n) ≡ 0
      → ((j : ℕ) → j < n → mem s.kernel (addr + j) ≢ 0)
      → ((i : ℕ) → addr ≤ i → i < addr + count + len → mapped s.kernel i ≡ true)
      → Ends (count + len) n (
          cread_nul_loop true sys pid addr fuel
            (addr + count)
            len
            count
            (window (mem s.kernel) addr count)
            s)
  cread_nul_loop-string zero len count n f top small p q z h there = absurd (omega arith)
  cread_nul_loop-string (suc fuel) len count n f top small p q z h there =
      let left : 0 < len = omega arith in
      let c = chunk fuel len count left small top there in
      let fits = chunk_fits fuel len count left small top there in
      let no_zero : (j : ℕ) → count + j < n → mem s.kernel (addr + count + j) ≢ 0 = λ j b.
        let shift : addr + count + j ≡ addr + (count + j) = omega arith in
        rw shift (h (count + j) b) in
      elim (Bool-cases (ltb n (count + c))) [
        | inl inside ↦
            let same : addr + count + (n - count) ≡ addr + n = omega arith in
            let found =
              find_nul-window (mem s.kernel) (addr + count) c (n - count) (ground arith) (rw same z)
                (λ j b. no_zero j (omega arith)) in
            let end : count + (n - count) + 1 ≡ suc n = omega arith in
            record {
              stored = count + c;
              whole = ground arith;
              fits = omega (arith, fits.1);
              returns =
                  chunk-found fuel len count left small top there (n - count) found
                  ∙ ap (λ x. some ((pos x, window (mem s.kernel) addr (count + c)), s)) end;
            }
        | inr beyond ↦
            let missing =
              find_nul-window-none (mem s.kernel) (addr + count) c
                (λ j b. no_zero j (ground arith)) in
            let rest =
              cread_nul_loop-string fuel (len - c) (count + c) n (omega (arith, fits))
                (omega (arith, fits)) (omega arith) (ground arith) (omega (arith, fits)) z h
                (λ i a b. there i a (omega (arith, fits))) in
            record {
              stored = rest.stored;
              whole = rest.whole;
              fits = omega (arith, rest.fits, fits);
              returns = chunk-passed fuel len count left small top there missing ∙ rest.returns;
            }
      ]

  -- Where the first zero byte from `addr` on is at `addr + n`, with n below the length asked for, and
  -- that many bytes are mapped and can be read by process_vm_readv(2): pink_vm_cread_nul returns n + 1
  -- and has stored the bytes of the tracee's memory, at least n + 1 of them and no more than were
  -- asked for; the kernel is as it was. The ABI does not truncate the address, the length is below
  -- 2 GiB, and the range ends in the address space.
  pub cread_nul-string :
      (arch : Arch) (abi len n : ℕ)
      → setup_addr arch abi addr ≡ addr
      → addr + len < 2 ^ 64
      → len < 2 ^ 31
      → n < len
      → mem s.kernel (addr + n) ≡ 0
      → ((j : ℕ) → j < n → mem s.kernel (addr + j) ≢ 0)
      → ((i : ℕ) → addr ≤ i → i < addr + len → mapped s.kernel i ≡ true)
      → Ends len n (cread_nul true sys arch abi pid addr len s)
  unfolding cread_nul
  cread_nul-string arch abi len n fits top small q z h there =
      let plain : addr + 0 ≡ addr = omega arith in
      let run =
        cread_nul_loop-string (suc len) len 0 n (omega arith) (omega arith) small (omega arith)
          (omega arith) z h (λ i p r. there i p (omega arith)) in
      record {
        stored = run.stored;
        whole = run.whole;
        fits = omega (arith, run.fits);
        returns =
            ap (λ a. cread_nul_loop true sys pid a (suc len) a len 0 [] s) fits
            ∙ ap (λ a. cread_nul_loop true sys pid addr (suc len) a len 0 [] s) (sym plain)
            ∙ run.returns;
      }
