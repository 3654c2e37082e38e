-- ===== src/System/Loop.antt =====
-- Code with loops that may not end: `none` says that the run has not returned within its fuel.
use pinktrace.Prelude.{
  Bool, true, false, if◌then◌else◌, Option, Option-cases, inl, inr, none, some, ◌≡◌, arith,
}
use pinktrace.System.{State, M}

abbrev pub D : Type 0 → Type 0 → Type 0
D K A = State K → Option (A × State K)

infixl 5 ◌>>=◌ ◌>>◌
abbrev pub ◌>>=◌ : {K A B : Type 0} → D K A → (A → D K B) → D K B
◌>>=◌ m f s = elim (m s) [ none ↦ none | some (a, t) ↦ f a t ]

abbrev pub ◌>>◌ : {K A B : Type 0} → D K A → D K B → D K B
◌>>◌ m k s = elim (m s) [ none ↦ none | some (a, t) ↦ k t ]

abbrev pub ret : {K A : Type 0} → A → D K A
ret a s = some (a, s)

abbrev pub out_of_fuel : {K A : Type 0} → D K A
out_of_fuel s = none

-- A part without loops.
abbrev pub lift : {K A : Type 0} → M K A → D K A
lift m s = some (m s)

-- The parts of a run that has returned.
pub bind-some :
    {K A B : Type 0} (m : D K A) (f : A → D K B) (s : State K) (r : B × State K)
    → (m >>= f) s ≡ some r
    → (a : A) × (u : State K) × (m s ≡ some (a, u)) × (f a u ≡ some r)
bind-some m f s r e = elim (Option-cases (m s)) [
  | inl n ↦ let wrong : Path (Option _) none (some r) = rw (◌>>=◌, n) at e in ground (arith, wrong)
  | inr ((a, u), h) ↦ (a, u, h, rw (◌>>=◌, h) at e)
]

pub then-some :
    {K A B : Type 0} (m : D K A) (k : D K B) (s : State K) (r : B × State K)
    → (m >> k) s ≡ some r
    → (u : State K) × (k u ≡ some r)
then-some m k s r e = elim (Option-cases (m s)) [
  | inl n ↦ let wrong : Path (Option _) none (some r) = rw (◌>>◌, n) at e in ground (arith, wrong)
  | inr ((a, u), h) ↦ (u, rw (◌>>◌, h) at e)
]

-- A run that returns, with a result of which `P` holds.
abbrev pub ReturnsWith : {K A : Type 0} → (A → Type 0) → Option (A × State K) → Type 0
ReturnsWith {K} {A} P run = (a : A) × (t : State K) × (run ≡ some (a, t)) × P a

pub bind-ReturnsWith :
    {K A B : Type 0} (P : A → Type 0) (Q : B → Type 0) (m : D K A) (f : A → D K B) (s : State K)
    → ReturnsWith P (m s)
    → ((a : A) (t : State K) → P a → ReturnsWith Q (f a t))
    → ReturnsWith Q ((m >>= f) s)
bind-ReturnsWith P Q m f s (a, t, e, p) next =
    let (b, u, e', q) = next a t p in (b, u, rw (◌>>=◌, e) e', q)

pub if-ReturnsWith :
    {K A : Type 0} (P : A → Type 0) (c : Bool) (m k : D K A) (s : State K)
    → ReturnsWith P (m s)
    → ReturnsWith P (k s)
    → ReturnsWith P ((if c then m else k) s)
if-ReturnsWith P true m k s x y = x
if-ReturnsWith P false m k s x y = y
