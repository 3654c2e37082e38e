-- ===== src/Socket/Tests.antt =====
-- A socketcall of a 32-bit process on the tracee of the tests of vm.c.
use mathlib.Core.Bool.{false≢true}
use pinktrace.Prelude.{
  inl, sym, ◌<◌, false, ℕ, ◌≡◌, refl, arith, true, some, pos, from_le, window, ◌==◌, if◌then◌else◌,
  [], negsuc,
}
use pinktrace.System.{State, PtraceCall, Request, efault, Calls}
use pinktrace.Trace.{minus_one}
use pinktrace.Abi.{abi_i386}
use pinktrace.Regset.{Layout, reg32}
use pinktrace.Regset.Convert.{linux_word}
use pinktrace.Vm.Memory.{PeekReads, le_bytes-from_le}
use pinktrace.Read.Data.{ReadvReads}
use pinktrace.Read.Registers.{in_abi}
use pinktrace.System.Loop.{ReturnsWith}
use pinktrace.Socket.WellFormed.{WellFormed, HoldsAddress, read_socket_address-WellFormed}
use pinktrace.Socket.{Sockaddr, zeros, read_socket_address, terminated}
use pinktrace.Socket.Decode.{read_socket_address-window}

-- All of memory is mapped. The arguments stand at 4096: the descriptor 3, the address 8192 and the
-- length 16; the address is 2, 0, 31, 144 and then zeros.
abbrev byte_at : ℕ → ℕ
byte_at i =
    if i == 4096
    then 3
    else if i == 4101
    then 32
    else if i == 4104
    then 16
    else if i == 8192
    then 2
    else if i == 8194
    then 31
    else if i == 8195
    then 144
    else 0

abbrev peek_all : PtraceCall (Unit {0})
peek_all Request.peekdata pid a w s = (from_le (window byte_at a 8), s)
peek_all _ pid a w s = (minus_one, record s { errno = efault })

abbrev calls : Calls (Unit {0})
calls = record {
  ptrace = peek_all;
  have_readv = true;
  readv = λ pid a len s. ((pos len, window byte_at a len), s);
  have_writev = false;
  writev = λ pid addr bytes s. (negsuc 0, s);
}

small : (i : ℕ) → byte_at i < 256
small i = ground arith

peek_all-PeekReads : PeekReads peek_all 1 (λ k. byte_at) (λ k i. true)
peek_all-PeekReads = record {
  grain = λ k i j e. refl;
  word = λ s a. from_le (window byte_at a 8);
  reads = λ s a e h. refl;
  bytes = λ s a e h. le_bytes-from_le byte_at a 8 small;
  error = λ s a. 13;
  faults = λ s a e h. absurd (false≢true (sym h));
}

calls-ReadvReads : ReadvReads calls.readv 1 (λ k. byte_at) (λ k i. true)
calls-ReadvReads = record {
  whole = λ s a len h. inl refl;
  short = λ s a len i p q h. absurd (false≢true (sym h));
}

abbrev start : State (Unit {0})
start = record { errno = 0; kernel = tt }

abbrev linux : Layout
linux = record { word = linux_word; size = 216 }

-- ecx is 4096.
abbrev words : ℕ → ℕ
words j = if j == 1 then 4096 else 0

read_socket_address-window_example :
    (e : ℕ) × (read_socket_address calls linux 1
        (in_abi words 68 abi_i386)
        true
        true
        1
        (record { family = pos 7; length = 0; pad = [] })
        start
      ≡ some (
        (
          pos 0,
          some 3,
          record { family = pos 2; length = 16; pad = terminated (window byte_at 8192 16) },
        ),
        record start { errno = e },
      ))
unfolding reg32
read_socket_address-window_example =
    read_socket_address-window calls 1 (λ k. byte_at) (λ k i. true) peek_all-PeekReads
      calls-ReadvReads linux words 68 1 8192 16 (record { family = pos 7; length = 0; pad = [] })
      start (omega arith) (λ j p q. refl) refl refl (omega arith) (omega arith) (omega arith)
      (omega arith) (λ j p q. refl)

abbrev empty : Sockaddr
empty = record { family = negsuc 0; length = 0; pad = zeros 128 }

empty-WellFormed : WellFormed empty
empty-WellFormed = record { whole = refl; within = omega arith }

read_socket_address-WellFormed_example :
    ReturnsWith HoldsAddress
      (read_socket_address calls linux 1 (in_abi words 68 abi_i386) true true 1 empty start)
read_socket_address-WellFormed_example =
    read_socket_address-WellFormed calls linux 1 (in_abi words 68 abi_i386) true true 1 empty start
      empty-WellFormed
