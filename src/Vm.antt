-- ===== src/Vm.antt =====
-- pinktrace/vm.c: data between the tracer and the tracee, a word at a time by ptrace(2) (`l...`) or
-- by process_vm_readv(2) and process_vm_writev(2) (`c...`). A `long` has 8 bytes, the lowest first.
-- A buffer that is filled is the list of the bytes stored in it; one that is read is a function of
-- the offset. The loops take fuel, one round more than there are bytes.
pub mod Memory
pub mod Lread
pub mod Returns
pub mod Lwrite
pub mod Chunk
pub mod NulRound
pub mod LreadNul
pub mod CreadNul
pub mod SameString
pub mod Tests
use pinktrace.Prelude.{
  ℕ, zero, suc, ◌+◌, ◌-◌, ◌*◌, ◌/◌, ◌%◌, ◌^◌, min, Bool, true, false, ◌&&◌, Option, none, some,
  List, [], ◌∷◌, ◌++◌, ◌==◌, if◌then◌else◌, ltb, get_or, take, drop, length, ℤ, pos, negsuc, is_neg,
  abs_neg, pos_part, sext32, u32, u64, le_bytes, from_le, window,
}
use pinktrace.System.{M, PtraceCall, ReadvCall, WritevCall, State, set_errno, enosys}
use pinktrace.System.Loop.{D, ◌>>=◌, ◌>>◌, ret, lift, out_of_fuel}
use pinktrace.Word.{read_word_data, write_word_data}
use pinktrace.Abi.{Arch, abis_supported, sizeof_long, wordsize}

-- setup_addr: the mask is there in builds with several ABIs and a `long` of more than 4 bytes.
unfoldable pub setup_addr : Arch → (abi addr : ℕ) → ℕ
setup_addr arch abi addr =
    if ltb 1 (abis_supported arch) && ltb 4 (sizeof_long arch)
    then (if ltb (wordsize arch abi) 8 then addr % 2 ^ (8 * wordsize arch abi) else addr)
    else addr

-- addr & -sizeof(long)
abbrev pub align : ℕ → ℕ
align addr = addr - addr % 8

-- The bytes of a word that was read, from `residue` on, `m` of them.
abbrev pub slice : (residue m : ℕ) → Option ℕ → List ℕ
slice residue m word = take m (drop residue (le_bytes 8 (get_or 0 word)))

-- The place of the first zero byte.
abbrev pub find_nul : List ℕ → Option ℕ
find_nul [] = none
find_nul (b ∷ bs) =
    if b == 0 then some 0 else elim (find_nul bs) [ none ↦ none | some i ↦ some (suc i) ]

module _ {K : Type 0} (sys : PtraceCall K) (pid : ℕ) where
  -- The loop of pink_vm_lread, with what is left to read and what has been stored.
  lread_loop : (fuel addr residue len count : ℕ) → (dest : List ℕ) → D K (ℤ × List ℕ)
  lread_loop zero addr residue len count dest = out_of_fuel
  lread_loop (suc fuel) addr residue len count dest = if len == 0 then ret (pos count, dest) else do
    (r, val) ← lift (read_word_data sys pid (align addr))
    if is_neg r
        then (do lift (set_errno (abs_neg r)); ret (negsuc 0, dest))
        else (let m = min (8 - residue) len in
            lread_loop fuel (u64 (align addr + 8)) 0 (len - m) (u32 (count + m))
              (dest ++ slice residue m val))

  unfoldable pub lread : (addr len : ℕ) → D K (ℤ × List ℕ)
  unfolding lread_loop
  lread addr len = lread_loop (suc len) addr (addr % 8) len 0 []

  -- The loop of pink_vm_lread_nul: `start` is dest - orig_dest.
  pub lread_nul_loop : (fuel addr residue len count start : ℕ) → (dest : List ℕ) → D K (ℤ × List ℕ)
  lread_nul_loop zero addr residue len count start dest = out_of_fuel
  lread_nul_loop (suc fuel) addr residue len count start dest =
      if len == 0 then ret (pos count, dest) else do
        (r, val) ← lift (read_word_data sys pid (align addr))
        if is_neg r
            then (do lift (set_errno (abs_neg r)); ret (negsuc 0, dest))
            else (let m = min (8 - residue) len in
                let stored = dest ++ slice residue m val in
                let rest =
                  lread_nul_loop fuel (u64 (align addr + 8)) 0 (len - m) (u32 (count + m))
                    (start + m) stored in
                elim (find_nul (drop residue (le_bytes 8 (get_or 0 val)))) [
                  | some i ↦ ret (pos (start + (residue + i + 1) - 1), stored)
                  | none ↦ rest
                ])

  unfoldable pub lread_nul : (addr len : ℕ) → D K (ℤ × List ℕ)
  unfolding lread_nul_loop
  lread_nul addr len = lread_nul_loop (suc len) addr (addr % 8) len 0 0 []

  -- The loop of pink_vm_lwrite. `src` is the memory behind the argument, `off` how far the pointer
  -- has moved, and `junk` the bytes that the union holds before it is filled. After a failure
  -- `count_written > 0 ? count_written : -1` is an unsigned int: its -1 is 2 ^ 32 - 1, and so is the
  -- ssize_t.
  lwrite_loop : (junk : ℕ → List ℕ) (src : ℕ → ℕ) → (fuel addr residue off len count : ℕ) → D K ℤ
  lwrite_loop junk src zero addr residue off len count = out_of_fuel
  lwrite_loop junk src (suc fuel) addr residue off len count =
      if len == 0
      then ret (pos count)
      else (let m = min (8 - residue) len in
          let x = window src (off + residue) m ++ drop m (junk (align addr)) in
          do
            r ← lift (write_word_data sys pid (align addr) (from_le x))
            if is_neg r
                then (do
                  lift (set_errno (abs_neg r))
                  ret (pos (if ltb 0 count then count else u32 (2 ^ 32 - 1))))
                else lwrite_loop junk src fuel (u64 (align addr + 8)) 0 (off + m) (len - m)
                    (u32 (count + m)))

  unfoldable pub lwrite : (junk : ℕ → List ℕ) (src : ℕ → ℕ) → (addr len : ℕ) → D K ℤ
  unfolding lwrite_loop
  lwrite junk src addr len = lwrite_loop junk src (suc len) addr (addr % 8) 0 len 0

module _ {K : Type 0} (have : Bool) (sys : ReadvCall K) where
  -- process_vm_readv, or its replacement where the system has none.
  unfoldable pub process_vm_readv : (pid addr len : ℕ) → M K (ℤ × List ℕ)
  process_vm_readv pid addr len =
      if have then sys pid addr len else (λ s. ((negsuc 0, []), record s { errno = enosys }))

  unfoldable pub cread : Arch → (abi pid addr len : ℕ) → D K (ℤ × List ℕ)
  unfolding process_vm_readv setup_addr
  cread arch abi pid addr len = lift (process_vm_readv pid (setup_addr arch abi addr) len)

  -- `chunk_len` of pink_vm_cread_nul as a 32-bit pattern: at most 256, and not across a page that
  -- starts behind `addr`.
  pub chunk_len : (addr len : ℕ) → ℕ
  chunk_len addr len =
      let c = if ltb 256 (u32 len) && ltb (u32 len) (2 ^ 31) then 256 else u32 len in
      let end_in_page = (addr + c) % 4096 in
      if ltb c (2 ^ 31) && ltb end_in_page c then c - end_in_page else c

  -- The loop of pink_vm_cread_nul: `addr` stays, and `base` is remote[0].iov_base.
  cread_nul_loop : (pid addr : ℕ) → (fuel base len count : ℕ) → (dest : List ℕ) → D K (ℤ × List ℕ)
  cread_nul_loop pid addr zero base len count dest = out_of_fuel
  cread_nul_loop pid addr (suc fuel) base len count dest =
      if len == 0 then ret (pos count, dest) else do
        (r, got) ← lift (process_vm_readv pid base (sext32 (chunk_len addr len)))
        if is_neg r
            then ret (if ltb 0 count then pos count else negsuc 0, dest ++ got)
            else (let n = pos_part r in
                let rest =
                  cread_nul_loop pid addr fuel (u64 (base + n)) (u64 (len + 2 ^ 64 - n)) (count + n)
                    (dest ++ got) in
                elim (find_nul (take n got)) [
                  | some i ↦ ret (pos (count + i + 1), dest ++ got)
                  | none ↦ rest
                ])

  unfoldable pub cread_nul : Arch → (abi pid addr len : ℕ) → D K (ℤ × List ℕ)
  unfolding cread_nul_loop process_vm_readv chunk_len setup_addr
  cread_nul arch abi pid addr len =
      let addr' = setup_addr arch abi addr in cread_nul_loop pid addr' (suc len) addr' len 0 []

module _ {K : Type 0} (have : Bool) (sys : WritevCall K) where
  unfoldable pub process_vm_writev : (pid addr : ℕ) → List ℕ → M K ℤ
  process_vm_writev pid addr bytes =
      if have then sys pid addr bytes else (λ s. (negsuc 0, record s { errno = enosys }))

  unfoldable pub cwrite : Arch → (abi pid : ℕ) → (src : ℕ → ℕ) → (addr len : ℕ) → D K ℤ
  unfolding process_vm_writev setup_addr
  cwrite arch abi pid src addr len =
      lift (process_vm_writev pid (setup_addr arch abi addr) (window src 0 len))
