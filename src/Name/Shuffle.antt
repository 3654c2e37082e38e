-- ===== src/Name/Shuffle.antt =====
-- shuffle_scno of pinktrace/name.c, which swaps two ranges of ARM system call numbers.
use pinktrace.Prelude.{ℕ, ◌+◌, ◌^◌, ◌≤◌, ◌<◌, ◌≡◌, refl, arith, length, List, Option, some, ℤ}
use Prim.Native.String.{String}
use pinktrace.Name.{
  Build, Numbering, shuffled, offset, plain, shuffle_scno, scno_to_place, place_to_scno, table_of,
}
use pinktrace.Name.Entries.{IsSound}

-- The shuffle is an involution, for any number, where the two ranges do not overlap: those of
-- `last` + 1 special numbers from 0xf0000 and from `first` + 1, and the number 0xffff0.
pub shuffle_scno_involution :
    (first last scno : ℕ)
    → first + last + 1 < 0xf0000
    → last < 0xfff0
    → shuffle_scno first last (shuffle_scno first last scno) ≡ scno
unfolding shuffle_scno
shuffle_scno_involution first last scno h k = ground arith

-- A plain, an offset or a shuffled numbering gives each place back from its number.
abbrev pub Fits : Numbering → Type 0
Fits plain = Unit
Fits (offset o) = o < 2 ^ 63
Fits (shuffled first last) = (first + last + 1 < 0xf0000) × (last < 0xfff0)

pub scno_to_place-place_to_scno :
    (m : Numbering) (p : ℕ) → Fits m → p < 2 ^ 16 → scno_to_place m (place_to_scno m p) ≡ p
unfolding scno_to_place place_to_scno
scno_to_place-place_to_scno plain p f h = refl
scno_to_place-place_to_scno (offset o) p f h = omega arith
scno_to_place-place_to_scno (shuffled first last) p f h =
    shuffle_scno_involution first last p f.0 f.1

-- A build whose tables are short and whose numbering fits is sound.
pub IsSound-of-Fits :
    (b : Build)
    → ((abi : ℤ) (t : List (Option String))
        → table_of b.sysent_vec abi ≡ some t
        → length t ≤ 2 ^ 16)
    → Fits b.numbering
    → IsSound b
IsSound-of-Fits b short f = record {
  short = short;
  inverse = λ p h. scno_to_place-place_to_scno b.numbering p f h;
}
