-- ===== src/Write/Data/Tests.antt =====
-- A tracee whose memory can be read and written by ptrace(2) alone.
use mathlib.Core.Bool.{false≢true}
use pinktrace.Prelude.{
  ℕ, zero, suc, ◌+◌, ◌-◌, ◌%◌, ◌/◌, ◌≤◌, ◌<◌, ◌≡◌, refl, sym, arith, ◌⊎◌, inr, ◌&&◌, true, false,
  some, get_or, get_elem?, [], if◌then◌else◌, ltb, leb, pos, negsuc, le_bytes, from_le, window,
}
use pinktrace.System.{Request, State, PtraceCall, Calls, efault, eperm}
use pinktrace.Trace.{minus_one}
use pinktrace.Abi.{abi_x86_64}
use pinktrace.Vm.Memory.{PeekReads, window_ext, le_bytes-from_le, setup_addr-x86_64}
use pinktrace.Vm.Lwrite.{PokeWrites}
use pinktrace.Read
use pinktrace.Read.Data.{ReadvReads}
use pinktrace.Write
use pinktrace.Write.Data.{WritevWrites, write-read}

abbrev Bytes : Type 0
Bytes = ℕ → ℕ

abbrev byte : Bytes → ℕ → ℕ
byte k i = k i % 256

abbrev put : Bytes → (a v : ℕ) → Bytes
put k a v i = if leb a i && ltb i (a + 8) then get_or 0 (get_elem? (le_bytes 8 v) (i - a)) else k i

abbrev poke_peek : PtraceCall Bytes
poke_peek Request.pokedata pid a v s = (0, record s { kernel = put s.kernel a v })
poke_peek Request.peekdata pid a v s = (from_le (window (byte s.kernel) a 8), s)
poke_peek _ pid a v s = (minus_one, record s { errno = efault })

le_bytes-byte : (n v j : ℕ) → get_or 0 (get_elem? (le_bytes n v) j) < 256
le_bytes-byte zero v zero = omega arith
le_bytes-byte zero v (suc j) = omega arith
le_bytes-byte (suc n) v zero = omega arith
le_bytes-byte (suc n) v (suc j) = le_bytes-byte n (v / 256) j

put-stored : (k : Bytes) (a v : ℕ) → window (byte (put k a v)) a 8 ≡ le_bytes 8 v
put-stored k a v =
    window_ext (byte (put k a v)) (λ j. get_or 0 (get_elem? (le_bytes 8 v) j)) a 0 8
      λ j p.
        let here : (leb a (a + j) && ltb (a + j) (a + 8)) ≡ true = ground arith in
        let place : a + j - a ≡ j = omega arith in
        let place' : 0 + j ≡ j = omega arith in
        let low : get_or 0 (get_elem? (le_bytes 8 v) j) % 256
            ≡ get_or 0 (get_elem? (le_bytes 8 v) j) =
          omega (arith, le_bytes-byte 8 v j) in
        rw (here, place, place') low

put-kept : (k : Bytes) (a v i : ℕ) → (i < a) ⊎ (a + 8 ≤ i) → byte (put k a v) i ≡ byte k i
put-kept k a v i h =
    let gone : (leb a i && ltb i (a + 8)) ≡ false = ground (arith, h) in rw gone refl

poke_peek-PokeWrites : PokeWrites poke_peek 1 byte (λ k i. true)
poke_peek-PokeWrites = record {
  poked = put;
  pokes = λ s a v h there. refl;
  same = λ k a v i. refl;
  stored = put-stored;
  kept = put-kept;
  error = λ s a. 13;
  faults = λ s a v e h. absurd (false≢true (sym h));
}

poke_peek-PeekReads : PeekReads poke_peek 1 byte (λ k i. true)
poke_peek-PeekReads = record {
  grain = λ k i j e. refl;
  word = λ s a. from_le (window (byte s.kernel) a 8);
  reads = λ s a e h. refl;
  bytes = λ s a e h. le_bytes-from_le (byte s.kernel) a 8 (λ i. omega arith);
  error = λ s a. 13;
  faults = λ s a e h. absurd (false≢true (sym h));
}

abbrev denied : Calls Bytes
denied = record {
  ptrace = poke_peek;
  have_readv = true;
  readv = λ pid a len s. ((negsuc 0, []), record s { errno = eperm });
  have_writev = true;
  writev = λ pid addr bytes s. (negsuc 0, record s { errno = eperm });
}

denied-ReadvReads : ReadvReads denied.readv 1 byte (λ k i. true)
denied-ReadvReads = record {
  whole = λ s a len h. inr ([], eperm, refl, inr refl);
  short = λ s a len i p q h. absurd (false≢true (sym h));
}

denied-WritevWrites : WritevWrites byte (λ k i. true) denied.writev 1
denied-WritevWrites s src addr len h = inr (eperm, refl, inr refl)

abbrev start : State Bytes
start = record { errno = 0; kernel = λ i. 0 }

abbrev letters : ℕ → ℕ
letters i = (97 + i) % 256

write-read_example :
    (t : State Bytes) × (e : ℕ) × (Write.vm_data denied abi_x86_64 1
        (λ a. window (λ i. 170) a 8)
        letters
        64
        11
        start
      ≡ some (pos 11, t))
    × (Read.vm_data denied abi_x86_64 1 64 11 t
        ≡ some ((pos 11, window letters 0 11), record t { errno = e }))
write-read_example =
    write-read denied abi_x86_64 1 byte (λ k i. true) poke_peek-PokeWrites denied-WritevWrites
      letters (λ i. 170) (λ i. omega arith) (λ i. omega arith) poke_peek-PeekReads denied-ReadvReads
      64 11 start (setup_addr-x86_64 64) refl (omega arith) (omega arith) (λ i p q. refl)
