-- ===== src/Vm/Tests.antt =====
-- Runs of pinktrace/vm.c on a small tracee, and its theorems at that tracee.
use mathlib.Core.Bool.{false≢true}
use pinktrace.Prelude.{
  inr, sym, ℕ, ◌+◌, ◌/◌, ◌%◌, ◌≡◌, ◌-◌, ◌≤◌, ◌<◌, negsuc, true, refl, arith, Bool, ◌&&◌, some, [],
  ◌∷◌, ltb, leb, if◌then◌else◌, pos, from_le, window,
}
use pinktrace.System.{Request, State, PtraceCall, efault}
use pinktrace.Trace.{minus_one}
use pinktrace.Vm.{lread, lread_nul, chunk_len}
use pinktrace.Vm.Memory.{PeekReads, le_bytes-from_le, setup_addr-x86_64}
use pinktrace.Vm.SameString.{string_stored, cread_nul-lread_nul}
use pinktrace.Abi.{Arch, abi_x86_64}
use pinktrace.Vm.Chunk.{chunk_len-page, cread_nul-Returns}
use pinktrace.Vm.Returns.{Returns, lread-lread_nul-lwrite-Returns}
use pinktrace.System.{ReadvCall}
use pinktrace.Vm.{cread_nul, lwrite}
use pinktrace.Vm.LreadNul.{lread_nul-string}
use pinktrace.Vm.Lread.{Fails, lread-window, lread_unmapped}

-- The addresses 16 to 63 are mapped, and each byte is twice its address.
abbrev pub byte_at : ℕ → ℕ
byte_at i = (i + i) % 256

abbrev pub is_mapped : ℕ → Bool
is_mapped i = leb 2 (i / 8) && ltb (i / 8) 8

abbrev pub peek_only : PtraceCall (Unit {0})
peek_only Request.peekdata pid a w s =
    if is_mapped a
    then (from_le (window byte_at a 8), s)
    else (minus_one, record s { errno = efault })
peek_only _ pid a w s = (minus_one, record s { errno = efault })

abbrev pub start : State (Unit {0})
start = record { errno = 7; kernel = tt }

pub peek_only-PeekReads : PeekReads peek_only 1 (λ k. byte_at) (λ k. is_mapped)
peek_only-PeekReads = record {
  grain = λ k i j e. ground arith;
  word = λ s a. from_le (window byte_at a 8);
  reads = λ s a e h. ground (arith, h);
  bytes = λ s a e h. le_bytes-from_le byte_at a 8 (λ i. omega arith);
  error = λ s a. 13;
  faults = λ s a e h. ground (arith, h);
}

lread-window_example :
    lread peek_only 1 19 7 start
    ≡ some ((pos 7, 38 ∷ 40 ∷ 42 ∷ 44 ∷ 46 ∷ 48 ∷ 50 ∷ []), record { errno = 0; kernel = tt })
lread-window_example =
    lread-window peek_only 1 (λ k. byte_at) (λ k. is_mapped) peek_only-PeekReads 19 7 start
      (omega arith) (omega arith) (λ i p q. ground arith)

lread_unmapped_example : Fails tt (lread peek_only 1 60 9 start)
lread_unmapped_example =
    lread_unmapped peek_only 1 (λ k. byte_at) (λ k. is_mapped) peek_only-PeekReads 60 9 64 start
      (omega arith) (omega arith) (omega arith) refl

chunk_len-page_example :
    let c = chunk_len true (λ pid a len. λ (s : State (Unit {0})). ((negsuc 0, []), s)) 8190 300 in
    (0 < c) × (c ≤ 256) × (c ≤ 300) × ((8190 + c - 1) / 4096 ≡ 1)
chunk_len-page_example =
    chunk_len-page true (λ pid a len. λ (s : State (Unit {0})). ((negsuc 0, []), s)) 8190 300
      (omega arith) (omega arith)

-- Nine letters from the address 67 on, with zeros behind them, in a memory that is all mapped.
abbrev pub text_at : ℕ → ℕ
text_at i = if leb 67 i && ltb i 76 then 104 else 0

-- A memory that is all mapped, by ptrace and by process_vm_readv.
abbrev pub peek_mem : (ℕ → ℕ) → PtraceCall (Unit {0})
peek_mem f Request.peekdata pid a w s = (from_le (window f a 8), s)
peek_mem f _ pid a w s = (minus_one, record s { errno = efault })

pub peek_mem-PeekReads :
    (f : ℕ → ℕ) → ((i : ℕ) → f i < 256) → PeekReads (peek_mem f) 1 (λ k. f) (λ k i. true)
peek_mem-PeekReads f byte = record {
  grain = λ k i j e. refl;
  word = λ s a. from_le (window f a 8);
  reads = λ s a e h. refl;
  bytes = λ s a e h. le_bytes-from_le f a 8 byte;
  error = λ s a. 13;
  faults = λ s a e h. absurd (false≢true (sym h));
}

abbrev pub readv_mem : (ℕ → ℕ) → ReadvCall (Unit {0})
readv_mem f pid a len s = ((pos len, window f a len), s)

pub text_byte : (i : ℕ) → text_at i < 256
text_byte i = ground arith

lread_nul-string_example :
    lread_nul (peek_mem text_at) 1 67 20 start
    ≡ some ((pos 9, window text_at 67 13), record { errno = 0; kernel = tt })
lread_nul-string_example =
    lread_nul-string (peek_mem text_at) 1 (λ k. text_at) (λ k i. true)
      (peek_mem-PeekReads text_at text_byte) 67 20 9 start (omega arith) (omega arith) (omega arith)
      refl (λ j h. ground arith) (λ i p q. refl)

cread_nul-lread_nul_example :
    let fast = cread_nul true (readv_mem text_at) Arch.x86_64 abi_x86_64 1 67 20 start in
    let slow = lread_nul (peek_mem text_at) 1 67 20 start in
    (string_stored fast ≡ string_stored slow)
    × (string_stored slow ≡ some (window text_at 67 10, tt))
cread_nul-lread_nul_example =
    cread_nul-lread_nul (peek_mem text_at) (readv_mem text_at) 1 (λ k. text_at) (λ k i. true)
      (peek_mem-PeekReads text_at text_byte) (λ s a len h. refl) Arch.x86_64 abi_x86_64 67 20 9
      start (setup_addr-x86_64 67) (omega arith) (omega arith) (omega arith)
      (refl, λ j h. ground arith) (λ i p q. refl)

-- Every call fails, also those that are never made.
abbrev always_negative : PtraceCall (Unit {0})
always_negative req pid a w s = (minus_one, record s { errno = efault })

lread-lread_nul-lwrite-Returns_example :
    Returns (lread always_negative 1 5 20 start)
    × Returns (lread_nul always_negative 1 5 20 start)
    × Returns (lwrite always_negative 1 (λ a. []) (λ i. i) 5 20 start)
lread-lread_nul-lwrite-Returns_example =
    lread-lread_nul-lwrite-Returns always_negative 1 (λ a. []) (λ i. i) 5 20 start

-- One byte in each call, none of them zero.
abbrev byte_by_byte : ReadvCall (Unit {0})
byte_by_byte pid a len s = ((pos 1, 65 ∷ []), s)

cread_nul-Returns_example :
    Returns (cread_nul true byte_by_byte Arch.x86_64 abi_x86_64 1 4090 10 start)
cread_nul-Returns_example =
    cread_nul-Returns true byte_by_byte Arch.x86_64 abi_x86_64 1 4090 10 start
      (λ pid a n s p. inr (refl, omega arith, omega arith)) (omega arith)
