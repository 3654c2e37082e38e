-- ===== src/Name/Unique.antt =====
-- Tables of pinktrace/name.c in which no name stands twice.
use Prim.Native.String.{String}
use text.Mathlib.Text.{◌==◌ as str_eq}
use text.Mathlib.TextEquality.{eq_iff}
use pinktrace.Prelude.{
  ℕ, zero, suc, ◌+◌, ◌≡◌, ◌≢◌, arith, Bool, true, false, not, ◌&&◌, Option, none, some, List, [],
  ◌∷◌, get_elem?, get_or, ℤ, pos, negsuc, Option-cases, inl, inr, ap, ◌∙◌,
}
use pinktrace.Name.{scan, is_empty, table_of, entry, find, named}

unfoldable pub not_in : String → List (Option String) → Bool
not_in s [] = true
not_in s (none ∷ t) = not_in s t
not_in s (some r ∷ t) = not (str_eq s r) && not_in s t

unfoldable pub unique : List (Option String) → Bool
unique [] = true
unique (none ∷ t) = unique t
unique (some s ∷ t) = not_in s t && not (str_eq s "") && unique t

not_in-get_elem? :
    (s r : String) (t : List (Option String)) (i : ℕ)
    → not_in s t ≡ true
    → get_elem? t i ≡ some (some r)
    → s ≢ r
unfolding not_in
not_in-get_elem? s r [] i a h = cc
not_in-get_elem? s r (none ∷ t) zero a h = cc
not_in-get_elem? s r (none ∷ t) (suc i) a h = not_in-get_elem? s r t i a h
not_in-get_elem? s r (some q ∷ t) zero a h = ground (arith, eq_iff s q)
not_in-get_elem? s r (some q ∷ t) (suc i) a h = not_in-get_elem? s r t i (ground arith) h

-- In such a table the look-up loop comes to the very place of a name.
scan-unique :
    (t : List (Option String)) (s : String) (n i : ℕ)
    → unique t ≡ true
    → get_elem? t i ≡ some (some s)
    → (scan t s n ≡ some (n + i)) × (str_eq s "" ≡ false)
unfolding unique scan
scan-unique [] s n i u h = cc
scan-unique (none ∷ t) s n zero u h = cc
scan-unique (none ∷ t) s n (suc i) u h = ground (arith, scan-unique t s (suc n) i)
scan-unique (some q ∷ t) s n zero u h = ground (arith, eq_iff q s)
scan-unique (some q ∷ t) s n (suc i) u h =
    ground (arith, scan-unique t s (suc n) i, not_in-get_elem? q s t i, eq_iff q s)

-- Each table of the vector is without repetitions.
unfoldable pub AllUnique : List (List (Option String)) → Type 0
AllUnique vec = (abi : ℤ) (t : List (Option String)) → table_of vec abi ≡ some t → unique t ≡ true

pub find_unique :
    (vec : List (List (Option String))) (s : String) (abi : ℤ) (n : ℕ)
    → AllUnique vec
    → named vec (pos n) abi ≡ some s
    → find vec (some s) abi ≡ some n
unfolding named find AllUnique is_empty
find_unique vec s abi n u h = elim (Option-cases (table_of vec abi)) [
  | inl e ↦ absurd (cc (rw (e, named) at h))
  | inr (t, e) ↦
      let g : get_or none (get_elem? t n) ≡ some s = unfold entry in rw (e, named) at h in
      let (f, ne) = scan-unique t s 0 n (u abi t e) (held (get_elem? t n) g) in
      rw (ne, e) (f ∙ ap some (omega arith))
]
  where
    held : (o : Option (Option String)) → get_or none o ≡ some s → o ≡ some (some s)
    held none g = cc
    held (some x) g = ap some g

pub negative-named :
    (vec : List (List (Option String))) (s : String) (n : ℕ) (abi : ℤ)
    → named vec (negsuc n) abi ≢ some s
unfolding named entry
negative-named vec s n abi h = elim (Option-cases (table_of vec abi)) [
  | inl e ↦ cc (rw (e, named) at h)
  | inr (t, e) ↦ cc (rw (e, named) at h)
]
