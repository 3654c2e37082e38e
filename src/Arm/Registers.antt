-- ===== src/Arm/Registers.antt =====
-- What pinktrace/write.c stores in the registers of an ARM tracee, pinktrace/read.c reads back.
use pinktrace.Prelude.{
  ℕ, ◌*◌, ◌^◌, ◌<◌, ◌≡◌, ◌≢◌, refl, arith, ap, ◌∙◌, false, some, ◌==◌, if◌then◌else◌, leb, pos, inl,
  inr, Bool-cases,
}
use pinktrace.System.{State, PtraceCall}
use pinktrace.Word.Narrow.{UserWords, poke_user-area}
use pinktrace.Arm.{Regset, Places, argument, write_argument}

-- A register set that holds the words of the user area.
abbrev pub Holds : (words : ℕ → ℕ) → Regset → Type 0
Holds words r = (i : ℕ) → i < 18 → r.uregs i ≡ words (4 * i)

-- Where the word of an argument is; that of the first is apart from those of the others.
abbrev pub offset : (arg_index : ℕ) → ℕ
offset arg_index = if arg_index == 0 then 4 * 17 else 4 * arg_index

offset_apart : (i j : ℕ) → i < 6 → j < 6 → j ≢ i → offset j ≢ offset i
offset_apart i j p q h = ground (arith, h)

-- On Linux ARM_ORIG_r0 is the 18th word.
argument-Holds :
    (places : Places) (words : ℕ → ℕ) (r : Regset) (i : ℕ)
    → places.arm_orig_r0 ≡ 17
    → i < 6
    → Holds words r
    → argument places r i ≡ (pos 0, some (words (offset i)))
unfolding argument
argument-Holds places words r i last b holds =
    let few : leb 6 i ≡ false = ground arith in
    elim (Bool-cases (i == 0)) [
      | inl first ↦ rw (argument, few, first, last, holds 17 (omega arith)) refl
      | inr later ↦ rw (argument, few, later, holds i (omega arith)) refl
    ]

module _ {K : Type 0} (sys : PtraceCall K) (pid : ℕ) (area : K → ℕ → ℕ)
    (user : UserWords sys pid area) (places : Places) (last : places.arm_orig_r0 ≡ 17) where
  -- On ARM: pink_write_argument stores a value as one of the six arguments, and once the registers
  -- are read into a register set, pink_read_argument gives that value for that argument, and for each
  -- of the others what stood there before.
  pub arguments-write_argument :
      (i v j : ℕ) (s : State K) (r : Regset)
      → i < 6
      → v < 2 ^ 32
      → j < 6
      → Holds (area (write_argument sys pid i v s).1.kernel) r
      → ((write_argument sys pid i v s).0 ≡ pos 0)
        × (argument places r j ≡ (pos 0, some (if j == i then v else area s.kernel (offset j))))
  unfolding write_argument
  arguments-write_argument i v j s r b small q holds =
      let few : leb 6 i ≡ false = ground arith in
      let k = user.poked s.kernel (offset i) v in
      let run : write_argument sys pid i v s ≡ (pos 0, record { errno = 0; kernel = k }) =
        rw (write_argument, few, poke_user-area sys pid area user s (offset i) v) refl in
      (
        ap (λ x. x.0) run,
        argument-Holds places (area (write_argument sys pid i v s).1.kernel) r j last q holds
            ∙ ap (λ x. (pos 0, some (area x.1.kernel (offset j)))) run
            ∙ ap (λ x. (pos 0, some x))
                (elim (Bool-cases (j == i)) [
                  | inl same ↦
                      let e : j ≡ i = ground arith in
                      rw (same, e) (user.stored s.kernel (offset i) v small)
                  | inr other ↦ rw other (
                      user.kept s.kernel (offset i) v (offset j)
                        (offset_apart i j b q (ground arith)))
                ]),
      )
