-- ===== src/Vm/Memory.antt =====
-- What ptrace(2) and the process_vm calls say of the tracee's memory, as far as pinktrace/vm.c
-- relies on it, and lemmas on ranges of a memory.
use pinktrace.Prelude.{
  ap₂, List, [], Bool-cases, inl, ◌==◌, ℕ, zero, suc, ◌+◌, ◌-◌, ◌*◌, ◌/◌, ◌%◌, ◌^◌, ◌≤◌, ◌<◌, ◌≡◌,
  refl, arith, ap, inr, Bool, true, false, some, none, ◌∷◌, ◌++◌, take, drop, length, pos, negsuc,
  le_bytes, from_le, window,
}
use pinktrace.System.{Request, State, PtraceCall}
use pinktrace.Trace.{minus_one}
use pinktrace.Trace.Status.{ptrace_stores, ptrace_fails, folded}
use pinktrace.Abi.{Arch, abi_x86_64, abi_i386, wordsize, abis_supported, sizeof_long}
use pinktrace.Vm.{setup_addr}
use pinktrace.Word.{read_word_data}

-- PTRACE_PEEKDATA at a word's address gives the word and leaves errno alone where the word is
-- mapped, and fails with an errno where it is not. Whole words are mapped.
pub record PeekReads {K : Type 0} (sys : PtraceCall K) (pid : ℕ) (mem : K → ℕ → ℕ)
    (mapped : K → ℕ → Bool) : Type 0 where
  pub grain : (k : K) (i j : ℕ) → i / 8 ≡ j / 8 → mapped k i ≡ mapped k j
  pub word : State K → ℕ → ℕ
  pub reads :
      (s : State K) (a : ℕ)
      → a % 8 ≡ 0
      → mapped s.kernel a ≡ true
      → sys Request.peekdata pid a 0 s ≡ (word s a, s)
  pub bytes :
      (s : State K) (a : ℕ)
      → a % 8 ≡ 0
      → mapped s.kernel a ≡ true
      → le_bytes 8 (word s a) ≡ window (mem s.kernel) a 8
  pub error : State K → ℕ → ℕ
  pub faults :
      (s : State K) (a : ℕ)
      → a % 8 ≡ 0
      → mapped s.kernel a ≡ false
      → sys Request.peekdata pid a 0 s ≡ (minus_one, record s { errno = suc (error s a) })

-- The x86-64 ABI truncates no address, and the other two none below 4 GiB.
pub setup_addr-x86_64 : (addr : ℕ) → setup_addr Arch.x86_64 abi_x86_64 addr ≡ addr
unfolding setup_addr wordsize abis_supported sizeof_long
setup_addr-x86_64 addr = refl

pub setup_addr-i386 : (addr : ℕ) → addr < 2 ^ 32 → setup_addr Arch.x86_64 abi_i386 addr ≡ addr
unfolding setup_addr wordsize abis_supported sizeof_long
setup_addr-i386 addr h = omega arith

-- Ranges that agree byte for byte are equal, and the other way round.
pub window_ext :
    (f g : ℕ → ℕ) (a b n : ℕ)
    → ((j : ℕ) → j < n → f (a + j) ≡ g (b + j))
    → window f a n ≡ window g b n
window_ext f g a b zero h = refl
window_ext f g a b (suc n) h =
    let e : a + 0 ≡ a = omega arith in
    let e' : b + 0 ≡ b = omega arith in
    let first : f a ≡ g b = rw (e, e') at (h 0 (omega arith)) in
    ap₂ (λ x t. x ∷ t) first
      (window_ext f g (suc a) (suc b) n λ j p.
        let c : suc a + j ≡ a + suc j = omega arith in
        let c' : suc b + j ≡ b + suc j = omega arith in rw (c, c') (h (suc j) (omega arith)))

abbrev first_of : List ℕ → ℕ
first_of [] = 0
first_of (x ∷ xs) = x

pub window_at :
    (f g : ℕ → ℕ) (a n i : ℕ) → window f a n ≡ window g a n → a ≤ i → i < a + n → f i ≡ g i
window_at f g a zero i e p q = absurd (omega arith)
window_at f g a (suc n) i e p q = elim (Bool-cases (i == a)) [
  | inl same ↦ let c : i ≡ a = ground arith in rw c (ap first_of e)
  | inr other ↦ window_at f g (suc a) n i (ap (drop 1) e) (ground arith) (omega arith)
]

pub window-append :
    (f : ℕ → ℕ) (a m n : ℕ) → window f a (m + n) ≡ window f a m ++ window f (a + m) n
window-append f a zero n =
    let e : 0 + n ≡ n = omega arith in let g : a + 0 ≡ a = omega arith in rw (e, g)
window-append f a (suc m) n =
    let e : suc m + n ≡ suc (m + n) = omega arith in
    let g : a + suc m ≡ suc a + m = omega arith in rw (e, g, window-append f (suc a) m n)

pub take-window : (f : ℕ → ℕ) (a m n : ℕ) → m ≤ n → take m (window f a n) ≡ window f a m
take-window f a zero n h = refl
take-window f a (suc m) zero h = absurd (omega arith)
take-window f a (suc m) (suc n) h = ap (λ t. f a ∷ t) (take-window f (suc a) m n (omega arith))

pub drop-window : (f : ℕ → ℕ) (a r n : ℕ) → r ≤ n → drop r (window f a n) ≡ window f (a + r) (n - r)
drop-window f a zero n h =
    let e : n - 0 ≡ n = omega arith in let g : a + 0 ≡ a = omega arith in rw (e, g)
drop-window f a (suc r) zero h = absurd (omega arith)
drop-window f a (suc r) (suc n) h =
    let e : suc n - suc r ≡ n - r = omega arith in
    let g : a + suc r ≡ suc a + r = omega arith in
    rw (e, g) (drop-window f (suc a) r n (omega arith))

pub take-drop-window :
    (f : ℕ → ℕ) (a r m n : ℕ) → r + m ≤ n → take m (drop r (window f a n)) ≡ window f (a + r) m
take-drop-window f a r m n h =
    rw (drop-window f a r n (omega arith)) (take-window f (a + r) m (n - r) (omega arith))

pub length-window : (f : ℕ → ℕ) (a n : ℕ) → length (window f a n) ≡ n
length-window f a zero = refl
length-window f a (suc n) = ap suc (length-window f (suc a) n)

-- The bytes of a range come back from the word that they make.
pub le_bytes-from_le :
    (f : ℕ → ℕ) (a n : ℕ)
    → ((i : ℕ) → f i < 256)
    → le_bytes n (from_le (window f a n)) ≡ window f a n
le_bytes-from_le f a zero h = refl
le_bytes-from_le f a (suc n) h =
    let low : (f a + 256 * from_le (window f (suc a) n)) % 256 ≡ f a = omega (arith, h a) in
    let high : (f a + 256 * from_le (window f (suc a) n)) / 256 ≡ from_le (window f (suc a) n) =
      omega (arith, h a) in
    rw (low, high, le_bytes-from_le f (suc a) n h)

module _ {K : Type 0} (sys : PtraceCall K) (pid : ℕ) (mem : K → ℕ → ℕ) (mapped : K → ℕ → Bool)
    (peek : PeekReads sys pid mem mapped) (s : State K) (a : ℕ) (aligned : a % 8 ≡ 0) where
  pub read_word_data-mapped :
      mapped s.kernel a ≡ true
      → (v : ℕ) × (read_word_data sys pid a s ≡ ((pos 0, some v), record s { errno = 0 }))
        × (le_bytes 8 v ≡ window (mem s.kernel) a 8)
  unfolding read_word_data
  read_word_data-mapped h =
      let s' : State K = record s { errno = 0 } in
      (
        peek.word s' a,
        ptrace_stores sys Request.peekdata pid a 0 s s' (peek.word s' a) (peek.reads s' a aligned h)
            (inr refl),
        peek.bytes s' a aligned h,
      )

  pub read_word_data-unmapped :
      mapped s.kernel a ≡ false
      → (e : ℕ) × (read_word_data sys pid a s ≡ ((negsuc e, none), record s { errno = suc e }))
  unfolding read_word_data
  read_word_data-unmapped h =
      let s' : State K = record s { errno = 0 } in
      let e = peek.error s' a in
      (folded e, ptrace_fails sys Request.peekdata pid a 0 s s' e true (peek.faults s' a aligned h))
