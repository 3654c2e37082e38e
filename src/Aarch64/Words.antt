-- ===== src/Aarch64/Words.antt =====
-- The registers in the words of the union of an AArch64 build, and what pinktrace/read.c reads from
-- them.
use pinktrace.Prelude.{
  ℕ, zero, suc, ◌-◌, ◌^◌, ◌≤◌, ◌<◌, ◌≡◌, Bool-cases, refl, arith, sym, ◌∙◌, inl, inr, false, Option,
  some, List, ◌==◌, if◌then◌else◌, leb, get_elem?, ℤ, pos, u32, neg64, sext32,
}
use pinktrace.Abi.{Arch, wordsize, sizeof_long}
use pinktrace.Regset.{Regset}
use pinktrace.Read.Negated.{negated, not_negated}
use pinktrace.Aarch64.{reg64, reg32, set_reg64, set_reg32, abi_aarch64, retval, argument}

-- A register as the ABI sees it.
abbrev pub reg : (abi : ℕ) → (ℕ → ℕ) → (i : ℕ) → ℕ
reg abi words i = if abi == abi_aarch64 then reg64 words i else reg32 words i

reg64-set_reg64 :
    (words : ℕ → ℕ) (i j v : ℕ)
    → v < 2 ^ 64
    → reg64 (set_reg64 words i v) j ≡ (if j == i then v else reg64 words j)
unfolding reg64 set_reg64
reg64-set_reg64 words i j v b = ground arith

reg32-set_reg32 :
    (words : ℕ → ℕ) (i j v : ℕ) → set_reg32 words i v j ≡ (if j == i then u32 v else words j)
unfolding set_reg32
reg32-set_reg32 words i j v = refl

-- A register set with one register replaced.
unfoldable pub set_reg : Regset → (i v : ℕ) → Regset
set_reg r i v =
    if r.abi == abi_aarch64
    then record r { words = set_reg64 r.words i v }
    else record r { words = set_reg32 r.words i v }

pub set_reg-iov_len : (r : Regset) (i v : ℕ) → (set_reg r i v).iov_len ≡ r.iov_len
unfolding set_reg
set_reg-iov_len r i v = ground arith

pub set_reg-abi : (r : Regset) (i v : ℕ) → (set_reg r i v).abi ≡ r.abi
unfolding set_reg
set_reg-abi r i v = ground arith

pub reg-set_reg :
    (r : Regset) (i j v : ℕ)
    → v < 2 ^ 64
    → reg r.abi (set_reg r i v).words j
      ≡ (if j == i then (if r.abi == abi_aarch64 then v else u32 v) else reg r.abi r.words j)
unfolding set_reg
reg-set_reg r i j v b = elim (Bool-cases (r.abi == abi_aarch64)) [
  | inl e ↦ rw e (reg64-set_reg64 r.words i j v b)
  | inr e ↦ rw e (reg32-set_reg32 r.words i j v)
]

pub argument-reg : (r : Regset) (j : ℕ) → j < 6 → argument r j ≡ (pos 0, some (reg r.abi r.words j))
unfolding argument
argument-reg r j b = let few : leb 6 j ≡ false = ground arith in rw few refl

-- What is stored as the return value.
abbrev pub result : (value error : ℕ) → ℕ
result value error = if error == 0 then value else sext32 (2 ^ 32 - u32 error)

pub result_bound : (n value error : ℕ) → 0 < n → value ≤ 2 ^ 64 - n → result value error < 2 ^ 64
result_bound n value error p v = ground (arith, p, v)

-- It is read back.
pub read_back :
    (nerrnos : List ℕ) (n value error : ℕ) (r : Regset)
    → get_elem? nerrnos 0 ≡ some n
    → 0 < n
    → n < 2 ^ 31
    → error < n
    → value ≤ 2 ^ 64 - n
    → r.abi ≡ abi_aarch64
    → reg64 r.words 0 ≡ result value error
    → retval nerrnos r ≡ some (if error == 0 then value else 2 ^ 64 - 1, error)
unfolding retval
read_back nerrnos n value zero r k p b q v wide back =
    let fine =
      not_negated Arch.aarch64 nerrnos n value 0 (unfold sizeof_long in refl) k b
        (unfold wordsize in refl) p v in
    rw (retval, wide, back, fine) (rw (wide, back))
read_back nerrnos n value (suc e) r k p b q v wide back =
    let minus : sext32 (2 ^ 32 - u32 (suc e)) ≡ 2 ^ 64 - suc e = ground arith in
    let failed =
      negated Arch.aarch64 nerrnos n (2 ^ 64 - suc e) 0 (unfold sizeof_long in refl) k b (suc e)
        (unfold wordsize in refl) (omega arith) q refl in
    let wrong : (suc e == 0) ≡ false = ground arith in
    let number : u32 (neg64 (2 ^ 64 - suc e)) ≡ suc e = omega arith in
    let back' : reg64 r.words 0 ≡ 2 ^ 64 - suc e = rw wrong at back ∙ minus in
    rw (retval, wide, back', failed) (rw (wide, back', number, wrong))

-- The argument that was stored, and the others.
pub out_of_if :
    (r : Regset) (i j new : ℕ)
    → j < 6
    → Path
        (ℤ × Option ℕ)
        (pos 0, some (if j == i then new else reg r.abi r.words j))
        (if j == i then (pos 0, some new) else argument r j)
out_of_if r i j new c = elim (Bool-cases (j == i)) [
  | inl e ↦ rw e refl
  | inr e ↦ rw e (sym (argument-reg r j c))
]
