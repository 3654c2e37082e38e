-- ===== src/Vm/Chunk.antt =====
-- The rounds of pink_vm_cread_nul of pinktrace/vm.c: the lengths that it asks for, and their number.
use pinktrace.Prelude.{
  ℕ, zero, suc, ◌+◌, ◌-◌, ◌/◌, ◌^◌, ◌≤◌, ◌<◌, ◌≡◌, refl, arith, inl, inr, ◌⊎◌, Bool, true, false,
  Bool-cases, Option-cases, List, [], take, ◌==◌, is_neg, pos_part, sext32, u64,
}
use pinktrace.System.{State, ReadvCall}
use pinktrace.System.Loop.{◌>>=◌}
use pinktrace.Abi.{Arch}
use pinktrace.Vm.{chunk_len, find_nul, cread_nul, cread_nul_loop, process_vm_readv, setup_addr}
use pinktrace.Vm.Returns.{Returns}

module _ {K : Type 0} (have : Bool) (sys : ReadvCall K) where
  -- Where something is left to read and it is less than 2 GiB, a chunk has at least one and at most
  -- 256 bytes, is no longer than what is left, and, counted from the address that was given, lies
  -- within one page of 4096 bytes.
  pub chunk_len-page :
      (addr len : ℕ)
      → 0 < len
      → len < 2 ^ 31
      → let c = chunk_len have sys addr len in
        (0 < c) × (c ≤ 256) × (c ≤ len) × ((addr + c - 1) / 4096 ≡ addr / 4096)
  unfolding chunk_len
  chunk_len-page addr len p q = ground arith

  -- process_vm_readv(2) of at least one byte fails, or moves between one and that many bytes.
  abbrev pub Moves : Type 0
  Moves =
      (pid a n : ℕ) (s : State K)
      → 0 < n
      → (is_neg (sys pid a n s).0.0 ≡ true)
        ⊎ ((is_neg (sys pid a n s).0.0 ≡ false)
            × (0 < pos_part (sys pid a n s).0.0)
            × (pos_part (sys pid a n s).0.0 ≤ n))

  process_vm_readv-Moves :
      (pid a n : ℕ) (s : State K)
      → Moves
      → 0 < n
      → let r = (process_vm_readv have sys pid a n s).0.0 in
        (is_neg r ≡ true) ⊎ ((is_neg r ≡ false) × (0 < pos_part r) × (pos_part r ≤ n))
  unfolding process_vm_readv
  process_vm_readv-Moves pid a n s moves p = elim (Bool-cases have) [
    | inl there ↦ rw there (moves pid a n s p)
    | inr missing ↦ rw missing (inl refl)
  ]

  cread_nul_loop-Returns :
      (pid addr fuel base len count : ℕ) (dest : List ℕ) (s : State K)
      → Moves
      → len < fuel
      → len < 2 ^ 31
      → Returns (cread_nul_loop have sys pid addr fuel base len count dest s)
  unfolding cread_nul_loop
  cread_nul_loop-Returns pid addr zero base len count dest s moves f b = absurd (omega arith)
  cread_nul_loop-Returns pid addr (suc fuel) base zero count dest s moves f b = (_, refl)
  cread_nul_loop-Returns pid addr (suc fuel) base (suc len) count dest s moves f b =
      let going : (suc len == 0) ≡ false = ground arith in
      let (some_bytes, most, fits, page) = chunk_len-page addr (suc len) (omega arith) b in
      let c = chunk_len have sys addr (suc len) in
      let asked : sext32 c ≡ c = ground arith in
      let call = process_vm_readv have sys pid base (sext32 c) s in
      elim (process_vm_readv-Moves pid base (sext32 c) s moves (rw asked some_bytes)) [
        | inl e ↦ rw (cread_nul_loop, going, ◌>>=◌, e) (_, refl)
        | inr (e, p, q) ↦ elim (Option-cases (find_nul (take (pos_part call.0.0) call.0.1))) [
          | inr (i, g) ↦ rw (cread_nul_loop, going, ◌>>=◌, e, g) (_, refl)
          | inl g ↦
              let q' : pos_part call.0.0 ≤ c = omega arith in
              let rest : u64 (suc len + 2 ^ 64 - pos_part call.0.0) ≡ suc len - pos_part call.0.0 =
                omega arith in
              rw (cread_nul_loop, going, ◌>>=◌, e, g, rest)
                (cread_nul_loop-Returns pid addr fuel _ _ _ _ _ moves (omega arith) (omega arith))
        ]
      ]

  -- For less than 2 GiB, where each call of process_vm_readv(2) fails or moves at least one byte and
  -- no more than were asked for, pink_vm_cread_nul returns: len + 1 rounds are enough.
  pub cread_nul-Returns :
      (arch : Arch) (abi pid addr len : ℕ) (s : State K)
      → Moves
      → len < 2 ^ 31
      → Returns (cread_nul have sys arch abi pid addr len s)
  unfolding cread_nul
  cread_nul-Returns arch abi pid addr len s moves b =
      cread_nul_loop-Returns pid (setup_addr arch abi addr) (suc len) _ len 0 [] s moves
        (omega arith) b
