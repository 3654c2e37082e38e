-- ===== src/Name/Xlat.antt =====
-- Round trips in the tables of `struct xlat` of pinktrace/name.c.
use Prim.Native.String.{String}
use text.Mathlib.Text.{◌==◌ as str_eq}
use text.Mathlib.TextEquality.{eq_iff}
use pinktrace.Prelude.{
  ℕ, ◌≡◌, ◌≢◌, refl, arith, Bool, true, false, ◌&&◌, not, Option, none, some, List, [], ◌∷◌, pos,
  Bool-cases, inl, inr, ap, ◌==◌, ◌↔◌, ◌∙◌, Option-cases,
}
use pinktrace.Name.Tables.Families.{family_names}
use pinktrace.Name.{
  Xlat, xname, xlookup, xlookup_in, is_empty, events, socket_subcalls, name_event, lookup_event,
  name_socket_subcall, lookup_socket_subcall, defined, name_socket_family, lookup_socket_family,
}

-- No name and no value stands twice, and no name is empty.
absent : String → ℕ → List Xlat → Bool
absent s n [] = true
absent s n ((r, m) ∷ t) = not (str_eq s r) && not (n == m) && absent s n t

distinct : List Xlat → Bool
distinct [] = true
distinct ((s, n) ∷ t) = not (str_eq s "") && absent s n t && distinct t

absent-name :
    (s r : String) (n m : ℕ) (t : List Xlat)
    → absent s n t ≡ true
    → xname t (pos m) ≡ some r
    → n ≢ m
unfolding absent xname
absent-name s r n m [] a h = cc
absent-name s r n m ((q, k) ∷ t) a h = ground (arith, absent-name s r n m t)

absent-lookup :
    (s : String) (n k : ℕ) (t : List Xlat) → absent s n t ≡ true → xlookup_in t s ≢ pos k
unfolding absent xlookup_in
absent-lookup s n k [] a = cc
absent-lookup s n k ((q, m) ∷ t) a = ground (arith, absent-lookup s n k t)

-- In a table with distinct names and values the two directions are inverse.
xlookup_in-xname :
    (t : List Xlat) (s : String) (n : ℕ)
    → distinct t ≡ true
    → (xlookup_in t s ≡ pos n) ↔ (xname t (pos n) ≡ some s)
unfolding distinct xname xlookup_in
xlookup_in-xname [] s n d = (λ h. cc, λ h. cc)
xlookup_in-xname ((q, m) ∷ t) s n d =
    ground (arith, eq_iff s q, absent-name q s m n t, absent-lookup q m n t, xlookup_in-xname t s n)

empty-xname : (t : List Xlat) (n : ℕ) → distinct t ≡ true → xname t (pos n) ≢ some ""
unfolding distinct xname
empty-xname [] n d h = cc
empty-xname ((q, m) ∷ t) n d h = ground (arith, eq_iff q "", empty-xname t n)

xlookup-xname :
    (t : List Xlat) (s : String) (n : ℕ)
    → distinct t ≡ true
    → (xlookup t (some s) ≡ pos n) ↔ (xname t (pos n) ≡ some s)
unfolding xlookup is_empty
xlookup-xname t s n d = elim (Bool-cases (str_eq s "")) [
  | inl e ↦ rw e (λ h. cc, λ h. absurd (empty-xname t n d (h ∙ ap some ((eq_iff s "").0 e))))
  | inr e ↦ rw e (xlookup_in-xname t s n d)
]

-- Event names and event numbers are inverse to each other: a name is looked up as n exactly when n
-- has that name.
pub lookup_event-name_event :
    (s : String) (n : ℕ) → (lookup_event (some s) ≡ pos n) ↔ (name_event (pos n) ≡ some s)
unfolding lookup_event name_event
lookup_event-name_event s n = xlookup-xname events s n (unfold distinct absent in refl)

-- Names and numbers of the socket subcalls are inverse to each other: a name is looked up as n
-- exactly when n has that name.
pub lookup_socket_subcall-name_socket_subcall :
    (s : String) (n : ℕ)
    → (lookup_socket_subcall (some s) ≡ pos n) ↔ (name_socket_subcall (pos n) ≡ some s)
unfolding lookup_socket_subcall name_socket_subcall
lookup_socket_subcall-name_socket_subcall s n =
    xlookup-xname socket_subcalls s n (unfold distinct absent in refl)

-- The address families: names are distinct, values need not be.
not_in : String → List String → Bool
not_in s [] = true
not_in s (r ∷ t) = not (str_eq s r) && not_in s t

unique : List String → Bool
unique [] = true
unique (s ∷ t) = not (str_eq s "") && not_in s t && unique t

module _ (af : String → Option ℕ) (r : String) (t : List String) where
  defined-none : af r ≡ none → defined af (r ∷ t) ≡ defined af t
  unfolding defined
  defined-none e = rw (e, defined)

  defined-some : (n : ℕ) → af r ≡ some n → defined af (r ∷ t) ≡ (r, n) ∷ defined af t
  unfolding defined
  defined-some n e = rw (e, defined)

module _ (af : String → Option ℕ) (s : String) (v : ℕ) where
  not_in-xname : (t : List String) → not_in s t ≡ true → xname (defined af t) (pos v) ≢ some s
  unfolding not_in xname
  not_in-xname [] a h = unfold defined in cc h
  not_in-xname (r ∷ t) a h = elim (Option-cases (af r)) [
    | inl e ↦ not_in-xname t (ground arith) (rw (defined-none af r t e) at h)
    | inr (n, e) ↦
        let g : xname ((r, n) ∷ defined af t) (pos v) ≡ some s =
          rw (defined-some af r t n e) at h in
        ground (arith, g, not_in-xname t, eq_iff s r)
  ]

  unique-xname :
      (t : List String)
      → unique t ≡ true
      → xname (defined af t) (pos v) ≡ some s
      → (xlookup_in (defined af t) s ≡ pos v) × (str_eq s "" ≡ false)
  unfolding unique not_in xname xlookup_in
  unique-xname [] u h = absurd (unfold defined in cc h)
  unique-xname (r ∷ t) u h = elim (Option-cases (af r)) [
    | inl e ↦
        rw (defined-none af r t e) (unique-xname t (ground arith) (rw (defined-none af r t e) at h))
    | inr (n, e) ↦
        let g : xname ((r, n) ∷ defined af t) (pos v) ≡ some s =
          rw (defined-some af r t n e) at h in
        rw (defined-some af r t n e)
          (ground (arith, g, unique-xname t, not_in-xname t, eq_iff s r, eq_iff s "", eq_iff r ""))
  ]

-- Whatever numbers sys/socket.h gives to the address families, also where several families share
-- one: a name that pink_name_socket_family gives for a number is looked up as that number.
pub lookup_socket_family-name_socket_family :
    (af : String → Option ℕ) (s : String) (v : ℕ)
    → name_socket_family af (pos v) ≡ some s
    → lookup_socket_family af (some s) ≡ pos v
unfolding name_socket_family lookup_socket_family xlookup is_empty
lookup_socket_family-name_socket_family af s v h =
    let (e, ne) = unique-xname af s v family_names (unfold unique not_in family_names in refl) h in
    rw ne e
