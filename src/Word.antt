-- ===== src/Word.antt =====
-- The word accesses of pinktrace/read.c and pinktrace/write.c: one ptrace(2) call each.
pub mod UserArea
pub mod Narrow
use pinktrace.Prelude.{ℕ, true, Option, ℤ}
use pinktrace.System.{Request, M, PtraceCall}
use pinktrace.Trace.{ptrace, call}

module _ {K : Type 0} (sys : PtraceCall K) (pid : ℕ) where
  -- The result, and the word that is stored through `res`.
  unfoldable pub read_word_user : (off : ℕ) → M K (ℤ × Option ℕ)
  read_word_user off = ptrace sys Request.peekuser pid off 0 true

  unfoldable pub read_word_data : (off : ℕ) → M K (ℤ × Option ℕ)
  read_word_data off = ptrace sys Request.peekdata pid off 0 true

  unfoldable pub write_word_user : (off val : ℕ) → M K ℤ
  write_word_user off val = call sys Request.pokeuser pid off val

  unfoldable pub write_word_data : (off val : ℕ) → M K ℤ
  write_word_data off val = call sys Request.pokedata pid off val
