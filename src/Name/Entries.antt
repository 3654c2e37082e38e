-- ===== src/Name/Entries.antt =====
-- Round trips between numbers and names in the tables of pinktrace/name.c, for every build.
use Prim.Native.String.{String}
use text.Mathlib.Text.{◌==◌ as str_eq}
use text.Mathlib.TextEquality.{eq_iff}
use pinktrace.Prelude.{
  ℕ, zero, suc, ◌+◌, ◌^◌, ◌≤◌, ◌<◌, ◌≡◌, arith, false, Option, none, some, List, [], ◌∷◌, length,
  get_elem?, get_or, ℤ, pos, Bool-cases, Option-cases, inl, inr, ap,
}
use pinktrace.Name.{
  Build, is_empty, table_of, entry, scan, find, named, found, name_errno, lookup_errno, name_signal,
  lookup_signal, scno_to_place, place_to_scno,
}

-- A place that the loop finds holds the name.
scan-get_elem? :
    (t : List (Option String)) (name : String) (n k : ℕ)
    → scan t name n ≡ some k
    → (i : ℕ) × (k ≡ n + i) × (get_elem? t i ≡ some (some name))
unfolding scan
scan-get_elem? [] name n k h = cc
scan-get_elem? (none ∷ t) name n k h =
    let (i, e, g) = scan-get_elem? t name (suc n) k h in (suc i, omega arith, g)
scan-get_elem? (some s ∷ t) name n k h = elim (Bool-cases (str_eq s name)) [
  | inl e ↦ (0, ground (arith, h), ap (λ x. some (some x)) ((eq_iff s name).0 e))
  | inr e ↦ let (i, e, g) = scan-get_elem? t name (suc n) k (rw e at h) in (suc i, omega arith, g)
]

-- The loop finds a name that stands at place `i`, there or before.
scan-le :
    (t : List (Option String)) (name : String) (n i : ℕ)
    → get_elem? t i ≡ some (some name)
    → (k : ℕ) × (scan t name n ≡ some k) × (k ≤ n + i)
unfolding scan
scan-le [] name n i h = cc
scan-le (none ∷ t) name n zero h = cc
scan-le (none ∷ t) name n (suc i) h =
    let (k, e, l) = scan-le t name (suc n) i h in (k, e, omega arith)
scan-le (some s ∷ t) name n zero h =
    let e : s ≡ name = cc in (n, rw ((eq_iff s name).1 e), omega arith)
scan-le (some s ∷ t) name n (suc i) h = elim (Bool-cases (str_eq s name)) [
  | inl e ↦ (n, rw e, omega arith)
  | inr e ↦ let (k, f, l) = scan-le t name (suc n) i h in (k, rw e f, omega arith)
]

-- What a look-up that succeeds says of the table of the ABI.
find-get_elem? :
    (vec : List (List (Option String))) (name : Option String) (abi : ℤ) (k : ℕ)
    → find vec name abi ≡ some k
    → (t : List (Option String)) × (table_of vec abi ≡ some t) × (get_elem? t k ≡ some name)
unfolding find
find-get_elem? vec none abi k h = cc
find-get_elem? vec (some s) abi k h = elim (Bool-cases (is_empty (some s))) [
  | inl e ↦ absurd (cc (rw e at h))
  | inr e ↦ elim (Option-cases (table_of vec abi)) [
    | inl f ↦ absurd (cc (rw (e, f) at h))
    | inr (t, f) ↦
        let (i, g, l) = scan-get_elem? t s 0 k (rw (e, f) at h) in
        let same : k ≡ i = omega arith in (t, f, rw same l)
  ]
]

named-find :
    (vec : List (List (Option String))) (name : Option String) (abi : ℤ) (k : ℕ)
    → find vec name abi ≡ some k
    → named vec (pos k) abi ≡ name
unfolding named
named-find vec name abi k h =
    let (t, e, g) = find-get_elem? vec name abi k h in rw (e, named) (entry_at t k g)
  where
    entry_at :
        (t : List (Option String)) (k : ℕ) → get_elem? t k ≡ some name → entry t (pos k) ≡ name
    entry_at t k g = unfold entry in rw g

find-named :
    (vec : List (List (Option String))) (s : String) (abi : ℤ) (k : ℕ)
    → is_empty (some s) ≡ false
    → named vec (pos k) abi ≡ some s
    → (j : ℕ) × (find vec (some s) abi ≡ some j) × (j ≤ k)
unfolding named find
find-named vec s abi k ne h = elim (Option-cases (table_of vec abi)) [
  | inl e ↦ absurd (cc (rw (e, named) at h))
  | inr (t, e) ↦
      let g : get_or none (get_elem? t k) ≡ some s = unfold entry in rw (e, named) at h in
      let (j, f, l) = scan-le t s 0 k (held (get_elem? t k) g) in (j, rw (ne, e) f, omega arith)
]
  where
    held : (o : Option (Option String)) → get_or none o ≡ some s → o ≡ some (some s)
    held none g = cc
    held (some x) g = ap some g

found-pos : (o : Option ℕ) (n : ℕ) → found o ≡ pos n → o ≡ some n
unfolding found
found-pos none n h = cc
found-pos (some k) n h = cc

-- For every build: where pink_lookup_errno finds a name, pink_name_errno gives that name back.
pub name_errno-lookup_errno :
    (b : Build) (name : Option String) (abi : ℤ) (n : ℕ)
    → lookup_errno b name abi ≡ pos n
    → name_errno b (pos n) abi ≡ name
unfolding name_errno lookup_errno
name_errno-lookup_errno b name abi n h =
    named-find b.errnoent_vec name abi n (found-pos (find b.errnoent_vec name abi) n h)

-- For every build: the name of an error is found again, at that number or at a lower one.
pub lookup_errno-name_errno :
    (b : Build) (s : String) (abi : ℤ) (n : ℕ)
    → is_empty (some s) ≡ false
    → name_errno b (pos n) abi ≡ some s
    → (k : ℕ) × (lookup_errno b (some s) abi ≡ pos k) × (k ≤ n)
unfolding name_errno lookup_errno found
lookup_errno-name_errno b s abi n ne h =
    let (k, e, l) = find-named b.errnoent_vec s abi n ne h in (k, rw e, l)

-- For every build: where pink_lookup_signal finds a name, pink_name_signal gives that name back.
pub name_signal-lookup_signal :
    (b : Build) (name : Option String) (abi : ℤ) (n : ℕ)
    → lookup_signal b name abi ≡ pos n
    → name_signal b (pos n) abi ≡ name
unfolding name_signal lookup_signal
name_signal-lookup_signal b name abi n h =
    named-find b.signalent_vec name abi n (found-pos (find b.signalent_vec name abi) n h)

-- The tables are not longer than 2 ^ 16, and a place comes back from its number.
pub record IsSound (b : Build) : Type 0 where
  pub short :
      (abi : ℤ) (t : List (Option String)) → table_of b.sysent_vec abi ≡ some t → length t ≤ 2 ^ 16
  pub inverse : (p : ℕ) → p < 2 ^ 16 → scno_to_place b.numbering (place_to_scno b.numbering p) ≡ p
