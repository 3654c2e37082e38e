-- ===== src/Read/Tests.antt =====
-- Return values, and data of the tracee of the tests of vm.c, here with process_vm_readv.
use pinktrace.Prelude.{
  ℤ, ℕ, zero, suc, ◌+◌, ◌-◌, ◌^◌, ◌≤◌, ◌<◌, ◌≡◌, refl, arith, inl, inr, true, false, ◌&&◌, ◌||◌,
  some, [], ◌∷◌, ◌==◌, if◌then◌else◌, pos, negsuc, window, List,
}
use pinktrace.System.{eperm, ReadvCall, Calls, efault}
use pinktrace.Abi.{wordsize, abi_x86_64, abi_x32}
use pinktrace.Regset.{Layout, reg64}
use pinktrace.Regset.Convert.{linux_word}
use pinktrace.Vm.SameString.{string_stored}
use pinktrace.Read.Strings.{vm_data_nul-c_string}
use pinktrace.Read.Members.{member_stored, string_array-member}
use pinktrace.Vm.Tests.{
  text_at, text_byte, peek_mem, peek_mem-PeekReads, readv_mem, byte_at, is_mapped, peek_only, start,
  peek_only-PeekReads,
}
use pinktrace.Vm.Memory.{setup_addr-x86_64}
use pinktrace.Read.{vm_data_nul, string_array, retval, vm_data_full}
use pinktrace.Read.Registers.{in_abi, retval_low_half}
use pinktrace.Read.Copy.{copy, outcome, vm_data_full-copy}
use pinktrace.Read.Data.{ReadvReads}

abbrev linux : Layout
linux = record { word = linux_word; size = 216 }

-- rax is 0x2fffffff8, of which the low half looks like an error.
abbrev file_words : ℕ → ℕ
file_words j = if j == 20 then 2 ^ 32 - 8 else if j == 21 then 2 else 0

retval_low_half_example :
    retval (134 ∷ 134 ∷ 134 ∷ []) linux (in_abi file_words 216 abi_x32) ≡ some (2 ^ 64 - 1, 8)
unfolding reg64
retval_low_half_example =
    retval_low_half (134 ∷ 134 ∷ 134 ∷ []) 134 linux file_words 216 8 refl (omega arith)
      (omega arith) (omega arith) (omega arith) refl

abbrev whole_or_nothing : ReadvCall (Unit {0})
whole_or_nothing pid a len s =
    if len == 0 || is_mapped a && is_mapped (a + len - 1)
    then ((pos len, window byte_at a len), s)
    else ((negsuc 0, []), record s { errno = efault })

abbrev calls : Calls (Unit {0})
calls = record {
  ptrace = peek_only;
  have_readv = true;
  readv = whole_or_nothing;
  have_writev = false;
  writev = λ pid addr bytes s. (negsuc 0, s);
}

there :
    (a len : ℕ)
    → ((i : ℕ) → a ≤ i → i < a + len → is_mapped i ≡ true)
    → (len == 0 || is_mapped a && is_mapped (a + len - 1)) ≡ true
there a zero h = refl
there a (suc len) h =
    let first = h a (omega arith) (omega arith) in
    let last = h (a + suc len - 1) (omega arith) (omega arith) in rw (first, last) (ground arith)

missing :
    (a len i : ℕ)
    → a ≤ i
    → i < a + len
    → is_mapped i ≡ false
    → (len == 0 || is_mapped a && is_mapped (a + len - 1)) ≡ false
missing a len i p q h = ground arith

whole_or_nothing-ReadvReads : ReadvReads whole_or_nothing 1 (λ k. byte_at) (λ k. is_mapped)
whole_or_nothing-ReadvReads = record {
  whole = λ s a len h. let e = there a len h in inl (rw e refl);
  short = λ s a len i p q h. let e = missing a len i p q h in inr ([], 13, rw e refl);
}

vm_data_full-copy_example :
    (r : ℤ × List ℕ) × (e : ℕ) × (vm_data_full calls abi_x86_64 1 60 9 start
      ≡ some (r, record start { errno = e }))
    × (outcome r ≡ copy byte_at is_mapped 60 9)
vm_data_full-copy_example =
    vm_data_full-copy calls abi_x86_64 1 (λ k. byte_at) (λ k. is_mapped) peek_only-PeekReads
      whole_or_nothing-ReadvReads 60 9 start (setup_addr-x86_64 60) (omega arith) (omega arith)

-- A kernel that denies process_vm_readv(2).
abbrev denied : (ℕ → ℕ) → Calls (Unit {0})
denied f = record {
  ptrace = peek_mem f;
  have_readv = true;
  readv = λ pid a len s. ((negsuc 0, []), record s { errno = eperm });
  have_writev = false;
  writev = λ pid addr bytes s. (negsuc 0, s);
}

vm_data_nul-c_string_example :
    string_stored (vm_data_nul (denied text_at) abi_x86_64 1 67 20 start)
    ≡ some (window text_at 67 10, tt)
vm_data_nul-c_string_example =
    vm_data_nul-c_string (denied text_at) abi_x86_64 1 (λ k. text_at) (λ k i. true)
      (peek_mem-PeekReads text_at text_byte) (inr (λ s a len. ([], eperm, refl, inr refl))) 67 20 9
      start (setup_addr-x86_64 67) (omega arith) (omega arith) (omega arith)
      (refl, λ j h. ground arith) (λ i p q. refl)

-- An array at 16 whose first member points to the letters, and whose second is NULL.
abbrev array_at : ℕ → ℕ
array_at i = if i == 16 then 67 else text_at i

array_byte : (i : ℕ) → array_at i < 256
array_byte i = ground arith

abbrev no_readv : Calls (Unit {0})
no_readv = record {
  ptrace = peek_mem array_at;
  have_readv = false;
  readv = readv_mem array_at;
  have_writev = false;
  writev = λ pid addr bytes s. (negsuc 0, s);
}

string_array-member_example :
    member_stored (string_array no_readv abi_x86_64 1 (7 ∷ []) 16 0 20 start)
    ≡ some ((window text_at 67 10, some false), tt)
unfolding wordsize
string_array-member_example =
    string_array-member no_readv abi_x86_64 1 (λ k. array_at) (λ k i. true)
      (peek_mem-PeekReads array_at array_byte) (inl (λ s a len h. refl)) (7 ∷ []) 16 0 20 9 start
      (omega arith) (setup_addr-x86_64 16) (omega arith) (λ i p q. refl) (setup_addr-x86_64 67)
      (omega arith) (omega arith) (omega arith) (λ h. (refl, λ j b. ground arith)) (λ h i p q. refl)
