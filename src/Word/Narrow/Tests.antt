-- ===== src/Word/Narrow/Tests.antt =====
-- A tracee of 32-bit words that can be read, and in the user area written.
use pinktrace.Prelude.{
  Bool, ltb, ℕ, true, false, ◌-◌, ◌%◌, ◌^◌, ◌≡◌, refl, arith, ◌==◌, if◌then◌else◌,
}
use pinktrace.System.{Request, PtraceCall, efault}
use pinktrace.Word.Narrow.{UserWords, DataWords}

abbrev pub Words : Type 0
Words = ℕ → ℕ

-- A word of the tracee has 32 bits.
abbrev pub word : Words → ℕ → ℕ
word k off = k off % 2 ^ 32

abbrev pub put : Words → (off v : ℕ) → Words
put k off v i = if i == off then v else k i

-- The first page is mapped.
abbrev pub low : ℕ → Bool
low a = ltb a 4096

abbrev pub user_and_data : PtraceCall Words
user_and_data Request.peekuser pid off w s = (word s.kernel off, s)
user_and_data Request.peekdata pid a w s =
    if low a then (word s.kernel a, s) else (2 ^ 32 - 1, record s { errno = efault })
user_and_data Request.pokeuser pid off v s = (0, record s { kernel = put s.kernel off v })
user_and_data _ pid off w s = (2 ^ 32 - 1, record s { errno = efault })

pub user_and_data-UserWords : UserWords user_and_data 1 word
user_and_data-UserWords = record {
  small = λ k off. omega arith;
  peeks = λ s off. refl;
  poked = put;
  pokes = λ s off v. refl;
  stored = λ k off v h. let e : (off == off) ≡ true = ground arith in rw e (omega arith);
  kept = λ k off v i h. let e : (i == off) ≡ false = ground (arith, h) in rw e;
}

pub user_and_data-DataWords : DataWords user_and_data 1 word (λ k. low)
user_and_data-DataWords = record {
  small = λ k a. omega arith;
  peeks = λ s a there. rw there refl;
  error = λ s a. 13;
  faults = λ s a gone. rw gone refl;
}
