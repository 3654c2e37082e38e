-- ===== src/Arm/Syscall.antt =====
-- The system call numbers of an ARM tracee (pinktrace/read.c), which the registers or the instruction
-- that made the call hold.
use pinktrace.Prelude.{
  ℕ, ◌+◌, ◌-◌, ◌*◌, ◌/◌, ◌%◌, ◌^◌, ◌<◌, ◌≡◌, ◌↔◌, refl, sym, arith, ap, ◌∙◌, inl, inr, Bool, true,
  false, not, Bool-cases, Option, none, some, ◌==◌, if◌then◌else◌, ℤ, pos, neg, u32,
}
use pinktrace.System.{State, PtraceCall, ◌>>=◌, efault}
use pinktrace.Word.Narrow.{DataWords, peek_data-word}
use pinktrace.Arm.{Regset, Places, in_thumb_mode, eabi_instruction, is_oabi_instruction, syscall}

-- The numbering conventions, by the mode and the instruction word before the program counter: in
-- Thumb mode, and after the EABI's instruction, the number is that of r7; the old ABI's
-- instructions hold it in their low 20 bits, below a condition of four bits.
pub data IsCall (r7 : ℕ) : (thumb : Bool) (word n : ℕ) → Type 0 where
  thumb_call : {word : ℕ} → IsCall r7 true word r7
  eabi_call : IsCall r7 false 0xef000000 r7
  oabi_call :
      {word n : ℕ} (cond : ℕ)
      → n < 2 ^ 20
      → word ≡ cond * 2 ^ 28 + 0x0f900000 + n
      → IsCall r7 false word n

-- What the code tests for.
abbrev decoded : (r7 : ℕ) (thumb : Bool) (word : ℕ) → Option ℕ
decoded r7 thumb word =
    if thumb
    then some r7
    else if word == eabi_instruction
    then some r7
    else if not (is_oabi_instruction word)
    then none
    else some (word % 2 ^ 20)

-- The result of the call.
abbrev outcome : Option ℕ → ℤ × Option ℕ
outcome none = (neg efault, none)
outcome (some n) = (pos 0, some n)

outcome-some : (d : Option ℕ) (n : ℕ) → outcome d ≡ (pos 0, some n) → d ≡ some n
outcome-some d n e = ap (λ x. x.1) (sym (second d)) ∙ ap (λ x. x.1) e
  where
    second : (d : Option ℕ) → outcome d ≡ ((outcome d).0, d)
    second none = refl
    second (some m) = refl

decoded-IsCall :
    (r7 : ℕ) (thumb : Bool) (word n : ℕ)
    → word < 2 ^ 32
    → decoded r7 thumb word ≡ some n
    → IsCall r7 thumb word n
decoded-IsCall r7 true word n small e = let same : n ≡ r7 = ground (arith, e) in rw same thumb_call
decoded-IsCall r7 false word n small e = elim (Bool-cases (word == eabi_instruction)) [
  | inl eabi ↦
      let same : n ≡ r7 = ground (arith, e) in
      let place : word ≡ 0xef000000 = ground arith in rw (same, place) eabi_call
  | inr other ↦
      let nine : word / 2 ^ 20 % 2 ^ 8 ≡ 0xf9 = ground (arith, e) in
      let low : n ≡ word % 2 ^ 20 = ground (arith, e) in
      oabi_call (word / 2 ^ 28) (omega arith) (omega arith)
]

IsCall-decoded :
    (r7 : ℕ) (thumb : Bool) (word n : ℕ) → IsCall r7 thumb word n → decoded r7 thumb word ≡ some n
IsCall-decoded r7 true word n thumb_call = refl
IsCall-decoded r7 false word n eabi_call = refl
IsCall-decoded r7 false word n (oabi_call cond small e) =
    let other : (word == eabi_instruction) ≡ false = ground arith in
    let nine : is_oabi_instruction word ≡ true = ground arith in
    let low : word % 2 ^ 20 ≡ n = omega arith in rw (other, nine, low)

module _ {K : Type 0} (sys : PtraceCall K) (pid : ℕ) (word_at : K → ℕ → ℕ) (readable : K → ℕ → Bool)
    (data_words : DataWords sys pid word_at readable) (places : Places) (r : Regset) where
  -- The address of the instruction before the program counter.
  abbrev pub before_pc : ℕ
  before_pc = u32 (r.uregs places.arm_pc + 2 ^ 32 - 4)

  syscall-decoded :
      (s : State K)
      → r.uregs places.arm_ip ≡ 0
      → readable s.kernel before_pc ≡ true
      → (syscall sys places pid r s).0
        ≡ outcome (
            decoded
              (r.uregs places.arm_r7)
              (in_thumb_mode (r.uregs places.arm_cpsr))
              (word_at s.kernel before_pc))
  unfolding syscall
  syscall-decoded s entry there =
      let word = word_at s.kernel before_pc in
      let entered : (r.uregs places.arm_ip == 0) ≡ true = ground arith in
      let read = peek_data-word sys pid word_at readable data_words s before_pc there in
      elim (Bool-cases (in_thumb_mode (r.uregs places.arm_cpsr))) [
        | inl thumb ↦ rw (syscall, entered, thumb) refl
        | inr arm_mode ↦ elim (Bool-cases (word == eabi_instruction)) [
          | inl eabi ↦ rw (syscall, entered, arm_mode, ◌>>=◌, read, eabi) refl
          | inr other ↦ elim (Bool-cases (is_oabi_instruction word)) [
            | inl oabi ↦ rw (syscall, entered, arm_mode, ◌>>=◌, read, other, oabi) refl
            | inr neither ↦ rw (syscall, entered, arm_mode, ◌>>=◌, read, other, neither) refl
          ]
        ]
      ]

  -- On ARM, at a system call entry (ip is 0), where the instruction before the program counter can be
  -- read: pink_read_syscall gives n if and only if n is the number of the call, in Thumb mode, by the
  -- EABI or by the old ABI, whatever the condition of the instruction.
  pub syscall-IsCall :
      (n : ℕ) (s : State K)
      → r.uregs places.arm_ip ≡ 0
      → readable s.kernel before_pc ≡ true
      → ((syscall sys places pid r s).0 ≡ (pos 0, some n))
        ↔ IsCall
            (r.uregs places.arm_r7)
            (in_thumb_mode (r.uregs places.arm_cpsr))
            (word_at s.kernel before_pc)
            n
  syscall-IsCall n s entry there =
      let run = syscall-decoded s entry there in
      let r7 = r.uregs places.arm_r7 in
      let thumb = in_thumb_mode (r.uregs places.arm_cpsr) in
      let word = word_at s.kernel before_pc in
      (
        λ e.
            decoded-IsCall r7 thumb word n (data_words.small s.kernel before_pc)
              (outcome-some (decoded r7 thumb word) n (sym run ∙ e)),
        λ c. run ∙ ap outcome (IsCall-decoded r7 thumb word n c),
      )
