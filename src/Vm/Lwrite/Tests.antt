-- ===== src/Vm/Lwrite/Tests.antt =====
-- A tracee whose memory can be written, and a range that ends within a word.
use mathlib.Core.Bool.{false≢true}
use pinktrace.Prelude.{
  ℕ, Bool, ◌/◌, ◌≢◌, ◌+◌, ◌-◌, ◌%◌, ◌≤◌, ◌<◌, ◌≡◌, refl, sym, arith, ◌⊎◌, ◌&&◌, true, false, some,
  get_or, get_elem?, if◌then◌else◌, ltb, leb, pos, le_bytes, window,
}
use pinktrace.System.{Request, State, PtraceCall, efault}
use pinktrace.Trace.{minus_one}
use pinktrace.Vm.{lwrite}
use pinktrace.Vm.Memory.{window_ext}
use pinktrace.Vm.Lwrite.Partial.{lwrite-stops}
use pinktrace.Vm.Lwrite.{PokeWrites, patched, lwrite-patched}

abbrev Bytes : Type 0
Bytes = ℕ → ℕ

abbrev put : Bytes → (a v : ℕ) → Bytes
put k a v i = if leb a i && ltb i (a + 8) then get_or 0 (get_elem? (le_bytes 8 v) (i - a)) else k i

abbrev poke_only : PtraceCall Bytes
poke_only Request.pokedata pid a v s = (0, record s { kernel = put s.kernel a v })
poke_only _ pid a v s = (minus_one, record s { errno = efault })

put-stored : (k : Bytes) (a v : ℕ) → window (put k a v) a 8 ≡ le_bytes 8 v
put-stored k a v =
    window_ext (put k a v) (λ j. get_or 0 (get_elem? (le_bytes 8 v) j)) a 0 8
      λ j p.
        let here : (leb a (a + j) && ltb (a + j) (a + 8)) ≡ true = ground arith in
        let place : a + j - a ≡ j = omega arith in
        let place' : 0 + j ≡ j = omega arith in rw (here, place, place')

put-kept : (k : Bytes) (a v i : ℕ) → (i < a) ⊎ (a + 8 ≤ i) → put k a v i ≡ k i
put-kept k a v i h = let gone : (leb a i && ltb i (a + 8)) ≡ false = ground (arith, h) in rw gone

poke_only-PokeWrites : PokeWrites poke_only 1 (λ k. k) (λ k i. true)
poke_only-PokeWrites = record {
  poked = put;
  pokes = λ s a v h there. refl;
  same = λ k a v i. refl;
  stored = put-stored;
  kept = put-kept;
  error = λ s a. 13;
  faults = λ s a v e h. absurd (false≢true (sym h));
}

abbrev start : State Bytes
start = record { errno = 0; kernel = λ i. 0 }

lwrite-patched_example :
    (t : State Bytes) × (lwrite poke_only 1
        (λ a. window (λ i. 170) a 8)
        (λ i. (i + 1) % 256)
        64
        11
        start
      ≡ some (pos 11, t))
    × ((i : ℕ) → t.kernel i ≡ patched (λ i. (i + 1) % 256) (λ i. 170) (λ i. 0) 64 11 i)
    × ((i : ℕ) → true ≡ true)
lwrite-patched_example =
    lwrite-patched poke_only 1 (λ k. k) (λ k i. true) poke_only-PokeWrites (λ i. (i + 1) % 256)
      (λ i. 170) (λ i. omega arith) (λ i. omega arith) 64 11 start refl (omega arith) (omega arith)
      (λ i p q. refl)

-- The addresses below 80 are mapped.
abbrev low : ℕ → Bool
low i = ltb (i / 8) 10

abbrev poke_low : PtraceCall Bytes
poke_low Request.pokedata pid a v s =
    if low a
    then (0, record s { kernel = put s.kernel a v })
    else (minus_one, record s { errno = efault })
poke_low _ pid a v s = (minus_one, record s { errno = efault })

poke_low-PokeWrites : PokeWrites poke_low 1 (λ k. k) (λ k. low)
poke_low-PokeWrites = record {
  poked = put;
  pokes = λ s a v h there. rw there refl;
  same = λ k a v i. refl;
  stored = put-stored;
  kept = put-kept;
  error = λ s a. 13;
  faults = λ s a v e gone. rw gone refl;
}

lwrite-stops_example :
    (t : State Bytes) × (lwrite poke_low 1
        (λ a. window (λ i. 170) a 8)
        (λ i. (i + 1) % 256)
        64
        30
        start
      ≡ some (pos 16, t))
    × ((i : ℕ) → t.kernel i ≡ (if leb 64 i && ltb i (64 + 16) then (i - 64 + 1) % 256 else 0))
    × (t.errno ≢ 0)
lwrite-stops_example =
    lwrite-stops poke_low 1 (λ k. k) (λ k. low) poke_low-PokeWrites (λ i. (i + 1) % 256) (λ i. 170)
      (λ i. omega arith) (λ i. omega arith) 64 30 16 start refl (omega arith) (omega arith) refl
      (omega arith) (λ i p q. ground arith) refl
