-- ===== src/Aarch64/Stored.antt =====
-- What PTRACE_SETREGSET and PTRACE_GETREGSET do with the registers of a tracee, and a register set
-- that is stored and read again (pinktrace/regset.c, pinktrace/write.c for AArch64).
use Prim.Native.Nat.{max, min}
use pinktrace.Prelude.{
  ℕ, ◌+◌, ◌*◌, ◌/◌, ◌%◌, ◌<◌, ◌≡◌, ◌⊎◌, refl, arith, ap, ◌∙◌, inl, inr, true, some, if◌then◌else◌,
  pos, neg, sext32,
}
use pinktrace.System.{enosys, Request, State, PtraceCall}
use pinktrace.Trace.{Have, get_regset}
use pinktrace.Trace.Status.{get_regset_succeeds, set_regset_succeeds}
use pinktrace.Regset.{Regset, Blocks}
use pinktrace.Aarch64.{reg64, arm_size, choose_abi, fill, finish, store}
use pinktrace.Aarch64.Words.{reg}

-- PTRACE_GETREGSET and PTRACE_SETREGSET with an iovec of n bytes at the pointer `regs`, n a multiple of 8,
-- move n bytes, or as many as there are, between the pointer and the general registers of the
-- tracee: `area` are the words of these and `bytes` their size. PTRACE_GETREGSET stores in iov_len how
-- many it has moved.
pub record UserRegset {K : Type 0} (sys : PtraceCall K) (blocks : Blocks K)
    (put : ℕ → ℕ → (ℕ → ℕ) → K → K) (pid regs io nt_prstatus : ℕ) (area : K → ℕ → ℕ) (bytes : K → ℕ)
    : Type 0 where
  pub loaded : K → K
  pub stored : K → K
  pub gets :
      (e n : ℕ) (k : K)
      → n % 8 ≡ 0
      → let k' = blocks.set_io io regs n k in
        sys Request.getregset pid (sext32 nt_prstatus) io (record { errno = e; kernel = k' })
        ≡ (0, record { errno = e; kernel = loaded k' })
  pub sets :
      (e n : ℕ) (k : K)
      → n % 8 ≡ 0
      → let k' = blocks.set_io io regs n k in
        sys Request.setregset pid (sext32 nt_prstatus) io (record { errno = e; kernel = k' })
        ≡ (0, record { errno = e; kernel = stored k' })
  pub loaded_words :
      (k : K) (n i : ℕ)
      → 4 * i < n
      → 4 * i < bytes k
      → blocks.words_at (loaded (blocks.set_io io regs n k)) regs i ≡ area k i
  pub loaded_length :
      (k : K) (n : ℕ) → blocks.length_at (loaded (blocks.set_io io regs n k)) io ≡ min n (bytes k)
  pub stored_words :
      (k : K) (n i : ℕ)
      → 4 * i < n
      → 4 * i < bytes k
      → area (stored (blocks.set_io io regs n k)) i ≡ blocks.words_at k regs i
  pub stored_bytes : (k : K) (n : ℕ) → bytes (stored (blocks.set_io io regs n k)) ≡ bytes k
  pub put_words :
      (k : K) (n : ℕ) (words : ℕ → ℕ) (i : ℕ)
      → i < n
      → blocks.words_at (put regs n words k) regs i ≡ words i
  pub put_bytes : (k : K) (n : ℕ) (words : ℕ → ℕ) → bytes (put regs n words k) ≡ bytes k

module _ {K : Type 0} (sys : PtraceCall K) (blocks : Blocks K) (put : ℕ → ℕ → (ℕ → ℕ) → K → K)
    (have : Have) (size pid regs io nt_prstatus : ℕ) (area : K → ℕ → ℕ) (bytes : K → ℕ)
    (user : UserRegset sys blocks put pid regs io nt_prstatus area bytes)
    (gets : have.getregset ≡ true) (sets : have.setregset ≡ true) (large : arm_size < size)
    (aligned : size % 8 ≡ 0) where
  -- The kernel after a register set is stored.
  after : Regset → K → K
  after r k =
      user.stored (blocks.set_io io regs r.iov_len (put regs (max size arm_size / 4) r.words k))

  store-after :
      (r : Regset) (s : State K)
      → r.iov_len % 8 ≡ 0
      → store sys blocks put have size pid regs io nt_prstatus r s ≡ (
        (pos 0, record r { iov_len = blocks.length_at (after r s.kernel) io }),
        record { errno = 0; kernel = after r s.kernel },
      )
  unfolding store after
  store-after r s whole =
      let k0 = put regs (max size arm_size / 4) r.words s.kernel in
      let k = blocks.set_io io regs r.iov_len k0 in
      rw
        (set_regset_succeeds sys have pid io nt_prstatus (record s { kernel = k })
          (record { errno = 0; kernel = user.stored k }) sets (user.sets 0 r.iov_len k0 whole))
        refl

  fill-there :
      (r : Regset) (s : State K)
      → fill sys blocks put have size pid regs io nt_prstatus r s
        ≡ finish sys blocks put have size pid regs io nt_prstatus r (
            get_regset sys have pid io nt_prstatus
              (record s { kernel = blocks.set_io io regs (max size arm_size) s.kernel }))
  unfolding fill
  fill-there r s =
      ap
        (λ b.
          if b
          then finish sys blocks put have size pid regs io nt_prstatus r (
              get_regset sys have pid io nt_prstatus
                (record s { kernel = blocks.set_io io regs (max size arm_size) s.kernel }))
          else some ((neg enosys, r), s))
        gets

  -- The registers and their size then.
  words-after :
      (r : Regset) (k : K) (i : ℕ)
      → r.iov_len ≡ bytes k
      → i < max size arm_size / 4
      → 4 * i < bytes k
      → area (after r k) i ≡ r.words i
  unfolding after
  words-after r k i full b h =
      let n = max size arm_size / 4 in
      user.stored_words (put regs n r.words k) r.iov_len i (rw full h)
        (rw (user.put_bytes k n r.words) h)
      ∙ user.put_words k n r.words i b

  bytes-after : (r : Regset) (k : K) → bytes (after r k) ≡ bytes k
  unfolding after
  bytes-after r k =
      let n = max size arm_size / 4 in
      user.stored_bytes (put regs n r.words k) r.iov_len ∙ user.put_bytes k n r.words

  -- The union has room for both structures.
  in_range :
      (k : K) (abi : ℕ)
      → choose_abi size (bytes k) ≡ some abi
      → (i : ℕ) → 4 * i < bytes k
      → (i < max size arm_size / 4) × (4 * i < max size arm_size)
  unfolding choose_abi
  in_range k abi a i h = ground (arith, a, large, aligned)

  -- Its size is one of the two.
  whole_size :
      (k : K) (abi : ℕ)
      → choose_abi size (bytes k) ≡ some abi
      → (bytes k % 8 ≡ 0) × (min (max size arm_size) (bytes k) ≡ bytes k)
  unfolding choose_abi
  whole_size k abi a = ground (arith, a, large, aligned)

  -- What is read then is what was stored, in the words that the tracee has.
  fill-after :
      (r0 r : Regset) (abi : ℕ) (k : K)
      → r.iov_len ≡ bytes k
      → choose_abi size (bytes k) ≡ some abi
      → (q : Regset) × (t : State K) × (fill sys blocks put have size pid regs io nt_prstatus r0
            (record { errno = 0; kernel = after r k })
          ≡ some ((pos 0, q), t))
        × (q.abi ≡ abi)
        × ((i : ℕ) → 4 * i < bytes k → q.words i ≡ r.words i)
  fill-after r0 r abi k full a =
      let n = max size arm_size in
      let k1 = after r k in
      let k2 = blocks.set_io io regs n k1 in
      let k3 = user.loaded k2 in
      let union : n % 8 ≡ 0 = omega (arith, large, aligned) in
      let run =
        get_regset_succeeds sys have pid io nt_prstatus (record { errno = 0; kernel = k2 })
          (record { errno = 0; kernel = k3 }) gets (user.gets 0 n k1 union) in
      let same : bytes k1 ≡ bytes k = bytes-after r k in
      let length : blocks.length_at k3 io ≡ bytes k =
        user.loaded_length k1 n ∙ ap (min n) same ∙ (whole_size k abi a).1 in
      let a' : choose_abi size (blocks.length_at k3 io) ≡ some abi = rw length a in
      let q : Regset = record {
        words = blocks.words_at k3 regs;
        iov_len = blocks.length_at k3 io;
        abi = abi;
      } in
      let end = finish sys blocks put have size pid regs io nt_prstatus r0 in
      (
        q,
        record { errno = 0; kernel = k3 },
        fill-there r0 (record { errno = 0; kernel = k1 }) ∙ ap end run ∙ (unfold finish in rw a'),
        refl,
        λ i h.
            let (place, inside) = in_range k abi a i h in
            user.loaded_words k1 n i inside (rw same h) ∙ words-after r k i full place h,
      )

  same_reg :
      (abi : ℕ) (k : K) (new old : ℕ → ℕ)
      → choose_abi size (bytes k) ≡ some abi
      → ((i : ℕ) → 4 * i < bytes k → new i ≡ old i)
      → (i : ℕ) → i < 6
      → reg abi new i ≡ reg abi old i
  unfolding reg64 choose_abi
  same_reg abi k new old a same i b =
      let narrow : bytes k ≡ size ⊎ ((abi ≡ 1) × (bytes k ≡ 72)) = ground (arith, a) in
      elim narrow [
        | inl e ↦
            rw (
              same (2 * i) (omega (arith, b)),
              same (2 * i + 1) (omega arith),
              same i (omega arith),
            )
        | inr (one, e) ↦ rw one (same i (omega arith))
      ]

  -- After a register set is stored and read again, its numbered registers are as they were stored.
  pub store-fill :
      (r : Regset) (s : State K)
      → r.iov_len ≡ bytes s.kernel
      → choose_abi size (bytes s.kernel) ≡ some r.abi
      → let t = store sys blocks put have size pid regs io nt_prstatus r s in
        (t.0.0 ≡ pos 0)
        × ((q : Regset) × (u : State K) × (fill sys blocks put have size pid regs io nt_prstatus
                t.0.1 t.1
              ≡ some ((pos 0, q), u))
            × (q.abi ≡ r.abi)
            × ((i : ℕ) → i < 6 → reg r.abi q.words i ≡ reg r.abi r.words i))
  store-fill r s full a =
      let run = store-after r s (rw full (whole_size s.kernel r.abi a).0) in
      let r0 : Regset = record r { iov_len = blocks.length_at (after r s.kernel) io } in
      let (q, u, filled, same_abi, same) = fill-after r0 r r.abi s.kernel full a in
      (
        ap (λ x. x.0.0) run,
        (q, u, rw run filled, same_abi, λ i b. same_reg r.abi s.kernel q.words r.words a same i b),
      )
