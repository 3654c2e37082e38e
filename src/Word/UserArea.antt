-- ===== src/Word/UserArea.antt =====
-- The words of the user area of a tracee, as far as pinktrace/read.c and pinktrace/write.c rely on
-- ptrace(2) for them.
use pinktrace.Prelude.{ℕ, ◌≡◌, ◌≢◌, refl, inr, some, pos}
use pinktrace.System.{Request, State, PtraceCall}
use pinktrace.Trace.Status.{ptrace_stores, call_succeeds}
use pinktrace.Word.{read_word_user, write_word_user}

-- PTRACE_PEEKUSER gives the word at an offset and changes nothing; PTRACE_POKEUSER stores one and
-- leaves those at other offsets.
pub record UserArea {K : Type 0} (sys : PtraceCall K) (pid : ℕ) (area : K → ℕ → ℕ) : Type 0 where
  pub peeks : (s : State K) (off : ℕ) → sys Request.peekuser pid off 0 s ≡ (area s.kernel off, s)
  pub poked : K → ℕ → ℕ → K
  pub pokes :
      (s : State K) (off v : ℕ)
      → sys Request.pokeuser pid off v s ≡ (0, record s { kernel = poked s.kernel off v })
  pub stored : (k : K) (off v : ℕ) → area (poked k off v) off ≡ v
  pub kept : (k : K) (off v i : ℕ) → i ≢ off → area (poked k off v) i ≡ area k i

module _ {K : Type 0} (sys : PtraceCall K) (pid : ℕ) (area : K → ℕ → ℕ)
    (user : UserArea sys pid area) where
  pub read_word_user-area :
      (s : State K) (off : ℕ)
      → read_word_user sys pid off s ≡ ((pos 0, some (area s.kernel off)), record s { errno = 0 })
  unfolding read_word_user
  read_word_user-area s off =
      let s' : State K = record s { errno = 0 } in
      ptrace_stores sys Request.peekuser pid off 0 s s' (area s.kernel off) (user.peeks s' off)
        (inr refl)

  pub write_word_user-area :
      (s : State K) (off v : ℕ)
      → write_word_user sys pid off v s
        ≡ (pos 0, record { errno = 0; kernel = user.poked s.kernel off v })
  unfolding write_word_user
  write_word_user-area s off v =
      call_succeeds sys Request.pokeuser pid off v s
        (record { errno = 0; kernel = user.poked s.kernel off v }) 0
        (user.pokes (record s { errno = 0 }) off v) (inr refl)
