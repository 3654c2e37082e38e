-- ===== src/Aarch64/Tests.antt =====
-- An AArch64 tracee of which the registers can be read and written.
use Prim.Native.Nat.{min}
use pinktrace.Prelude.{
  ◌*◌, ℕ, ◌≡◌, ◌<◌, refl, arith, true, false, some, ◌==◌, if◌then◌else◌, ltb, pos, u32,
}
use pinktrace.System.{Request, State, PtraceCall, efault}
use pinktrace.Trace.{Have, minus_one}
use pinktrace.Regset.{Regset, Blocks}
use pinktrace.Aarch64.{choose_abi, abi_aarch64, fill, argument, write_argument}
use pinktrace.Aarch64.Stored.{UserRegset}
use pinktrace.Aarch64.Registers.{write_argument-fill-argument}

-- The tracee's registers, the union behind its pointer, and what stands in iov_len.
record Machine : Type 0 where
  registers : ℕ → ℕ
  union : ℕ → ℕ
  length : ℕ

abbrev machine_blocks : Blocks Machine
machine_blocks = record {
  words_at = λ k p. k.union;
  length_at = λ k io. k.length;
  set_io = λ io base n k. record k { length = n };
}

abbrev put : ℕ → ℕ → (ℕ → ℕ) → Machine → Machine
put addr n words k = record k { union = λ i. if ltb i n then words i else k.union i }

-- The first n bytes of `new`, which has 272, and then `old`.
abbrev moved : (n : ℕ) (new old : ℕ → ℕ) → ℕ → ℕ
moved n new old i = if ltb (4 * i) (min n 272) then new i else old i

abbrev load : Machine → Machine
load k = record k { union = moved k.length k.registers k.union; length = min k.length 272 }

abbrev save : Machine → Machine
save k = record k { registers = moved k.length k.union k.registers; length = min k.length 272 }

abbrev machine : PtraceCall Machine
machine Request.getregset pid addr w s = (0, record s { kernel = load s.kernel })
machine Request.setregset pid addr w s = (0, record s { kernel = save s.kernel })
machine _ pid addr w s = (minus_one, record s { errno = efault })

moved-new : (n : ℕ) (new old : ℕ → ℕ) (i : ℕ) → 4 * i < n → 4 * i < 272 → moved n new old i ≡ new i
moved-new n new old i a b =
    let e : ltb (4 * i) (min n 272) ≡ true = ground (arith, a, b) in rw e refl

machine-UserRegset : UserRegset machine machine_blocks put 1 0 0 1 (λ k. k.registers) (λ k. 272)
machine-UserRegset = record {
  loaded = load;
  stored = save;
  gets = λ e n k h. refl;
  sets = λ e n k h. refl;
  loaded_words = λ k n i a b. moved-new n k.registers k.union i a b;
  loaded_length = λ k n. refl;
  stored_words = λ k n i a b. moved-new n k.union k.registers i a b;
  stored_bytes = λ k n. refl;
  put_words = λ k n words i h. let e : ltb i n ≡ true = ground (arith, h) in rw e;
  put_bytes = λ k n words. refl;
}

abbrev regsets : Have
regsets = record {
  geteventmsg = false;
  getregs = false;
  setregs = false;
  getregset = true;
  setregset = true;
  getsiginfo = false;
  setup = false;
  sysemu = false;
  seize = false;
  interrupt = false;
  listen = false;
  tkill = false;
  tgkill = false;
}

abbrev before : Regset
before = record { words = λ i. 7; iov_len = 272; abi = 0 }

abbrev start : State Machine
start = record { errno = 0; kernel = record { registers = λ i. 7; union = λ i. 0; length = 0 } }

write_argument-fill-argument_example :
    let t = write_argument machine machine_blocks put regsets 272 1 0 0 1 2 99 before start in
    (t.0.0 ≡ pos 0)
    × ((q : Regset) × (u : State Machine) × (fill machine machine_blocks put regsets 272 1 0 0 1
            t.0.1 t.1
          ≡ some ((pos 0, q), u))
        × ((j : ℕ)
            → j < 6
            → argument q j ≡ (
                if j == 2
                then (pos 0, some (if 0 == abi_aarch64 then 99 else u32 99))
                else argument before j)))
write_argument-fill-argument_example =
    write_argument-fill-argument machine machine_blocks put regsets 272 1 0 0 1 (λ k. k.registers)
      (λ k. 272) machine-UserRegset refl refl (omega arith) (omega arith) 2 99 before start
      (omega arith) (omega arith) refl (unfold choose_abi in refl)
