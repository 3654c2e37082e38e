-- ===== src/Word/Narrow.antt =====
-- pink_ptrace of pinktrace/trace.c and the word accesses of pinktrace/read.c and pinktrace/write.c in
-- a build where a `long` has 4 bytes: a `long` is its 32-bit pattern.
pub mod Tests
use pinktrace.Prelude.{
  ℕ, ◌+◌, ◌-◌, ◌^◌, ◌≡◌, ◌≢◌, ◌<◌, refl, arith, inr, Bool, true, false, suc, Option, none, some, ℤ,
  pos, u32, sext32, if◌then◌else◌, ltb,
}
use mathlib.Core.Option.{map}
use pinktrace.System.{Request, State, M, PtraceCall}
use pinktrace.Trace.{ptrace, call}
use pinktrace.Trace.Status.{ptrace_stores, call_succeeds}

-- -x of a 32-bit pattern.
abbrev pub neg32 : ℕ → ℕ
neg32 x = u32 (2 ^ 32 - u32 x)

module _ {K : Type 0} (sys : PtraceCall K) where
  -- ptrace(2) with its result extended to the 64 bits that Trace compares with -1.
  unfoldable pub widen : PtraceCall K
  widen req pid addr word s = (sext32 (sys req pid addr word s).0, (sys req pid addr word s).1)

  module _ (pid : ℕ) where
    -- The result, and the word that is stored through `res`.
    unfoldable pub peek_user : (off : ℕ) → M K (ℤ × Option ℕ)
    unfolding widen
    peek_user off s =
        let (r, t) = ptrace widen Request.peekuser pid off 0 true s in ((r.0, map u32 r.1), t)

    unfoldable pub peek_data : (off : ℕ) → M K (ℤ × Option ℕ)
    unfolding widen
    peek_data off s =
        let (r, t) = ptrace widen Request.peekdata pid off 0 true s in ((r.0, map u32 r.1), t)

    unfoldable pub poke_user : (off val : ℕ) → M K ℤ
    unfolding widen
    poke_user off val = call widen Request.pokeuser pid off val

-- PTRACE_PEEKUSER gives the 32-bit word at an offset and changes nothing; PTRACE_POKEUSER stores one
-- and leaves those at other offsets.
pub record UserWords {K : Type 0} (sys : PtraceCall K) (pid : ℕ) (area : K → ℕ → ℕ) : Type 0 where
  pub small : (k : K) (off : ℕ) → area k off < 2 ^ 32
  pub peeks : (s : State K) (off : ℕ) → sys Request.peekuser pid off 0 s ≡ (area s.kernel off, s)
  pub poked : K → ℕ → ℕ → K
  pub pokes :
      (s : State K) (off v : ℕ)
      → sys Request.pokeuser pid off v s ≡ (0, record s { kernel = poked s.kernel off v })
  pub stored : (k : K) (off v : ℕ) → v < 2 ^ 32 → area (poked k off v) off ≡ v
  pub kept : (k : K) (off v i : ℕ) → i ≢ off → area (poked k off v) i ≡ area k i

module _ {K : Type 0} (sys : PtraceCall K) (pid : ℕ) (area : K → ℕ → ℕ)
    (user : UserWords sys pid area) where
  -- Also a word of all ones, which is -1, is no error.
  pub peek_user-area :
      (s : State K) (off : ℕ)
      → peek_user sys pid off s ≡ ((pos 0, some (area s.kernel off)), record s { errno = 0 })
  unfolding peek_user widen
  peek_user-area s off =
      let s' : State K = record s { errno = 0 } in
      let v = area s.kernel off in
      let low : u32 (sext32 v) ≡ v = ground (arith, user.small s.kernel off) in
      let run =
        ptrace_stores (widen sys) Request.peekuser pid off 0 s s' (sext32 v)
          (rw (user.peeks s' off) refl) (inr refl) in
      rw (peek_user, run, low) refl

  pub poke_user-area :
      (s : State K) (off v : ℕ)
      → poke_user sys pid off v s
        ≡ (pos 0, record { errno = 0; kernel = user.poked s.kernel off v })
  unfolding poke_user widen
  poke_user-area s off v =
      call_succeeds (widen sys) Request.pokeuser pid off v s
        (record { errno = 0; kernel = user.poked s.kernel off v }) 0
        (rw (user.pokes (record s { errno = 0 }) off v) refl) (inr refl)

-- PTRACE_PEEKDATA gives the 32-bit word at an address that can be read and changes nothing; at any
-- other it fails with an errno.
pub record DataWords {K : Type 0} (sys : PtraceCall K) (pid : ℕ) (word_at : K → ℕ → ℕ)
    (readable : K → ℕ → Bool) : Type 0 where
  pub small : (k : K) (a : ℕ) → word_at k a < 2 ^ 32
  pub peeks :
      (s : State K) (a : ℕ)
      → readable s.kernel a ≡ true
      → sys Request.peekdata pid a 0 s ≡ (word_at s.kernel a, s)
  pub error : State K → ℕ → ℕ
  pub faults :
      (s : State K) (a : ℕ)
      → readable s.kernel a ≡ false
      → sys Request.peekdata pid a 0 s ≡ (2 ^ 32 - 1, record s { errno = suc (error s a) })

pub peek_data-word :
    {K : Type 0} (sys : PtraceCall K) (pid : ℕ) (word_at : K → ℕ → ℕ) (readable : K → ℕ → Bool)
    → (data_words : DataWords sys pid word_at readable) (s : State K) (a : ℕ)
    → readable s.kernel a ≡ true
    → peek_data sys pid a s ≡ ((pos 0, some (word_at s.kernel a)), record s { errno = 0 })
unfolding peek_data widen
peek_data-word sys pid word_at readable data_words s a there =
    let s' = record s { errno = 0 } in
    let v = word_at s.kernel a in
    let low : u32 (sext32 v) ≡ v = ground (arith, data_words.small s.kernel a) in
    let run =
      ptrace_stores (widen sys) Request.peekdata pid a 0 s s' (sext32 v)
        (rw (data_words.peeks s' a there) refl) (inr refl) in
    rw (peek_data, run, low) refl
