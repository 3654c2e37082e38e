-- ===== src/Trace/Options.antt =====
-- pink_trace_setup of pinktrace/trace.c: which PTRACE_SETOPTIONS call it makes.
use mathlib.Core.Option
use mathlib.Core.Option.{Option, none, some}
use Prim.Native.Nat.{bit_or}
use pinktrace.Prelude.{
  ℕ, suc, ◌/◌, ◌%◌, ◌^◌, ◌≡◌, refl, arith, ◌∙◌, Bool, true, false, not, ◌&&◌, ◌||◌, inl, inr,
  Bool-cases, List, [], ◌∷◌, ◌==◌, if◌then◌else◌, neg, sext32,
}
use pinktrace.System.{Request, State, PtraceCall, einval}
use pinktrace.Trace.{
  Have, TraceOption, sysgood, fork, vfork, clone, exec, vfork_done, exit, seccomp, exitkill,
  requested, add_option, collect, all_options, call, setup,
}

-- The options by the place of their bit in pinktrace/trace.h: whether the system has one, and its flag
-- for ptrace(2).
abbrev pub table : (have_option : TraceOption → Bool) → (flag : TraceOption → ℕ) → List (Bool × ℕ)
table have_option flag =
    (have_option sysgood, flag sysgood)
    ∷ (have_option fork, flag fork)
    ∷ (have_option vfork, flag vfork)
    ∷ (have_option clone, flag clone)
    ∷ (have_option exec, flag exec)
    ∷ (have_option vfork_done, flag vfork_done)
    ∷ (have_option exit, flag exit)
    ∷ (have_option seccomp, flag seccomp)
    ∷ (have_option exitkill, flag exitkill)
    ∷ []

-- The bit at place k.
abbrev pub bit : (options k : ℕ) → Bool
bit options k = options / 2 ^ k % 2 == 1

-- Some bit from place k on is set for which the table has no flag.
abbrev pub lacks : (options k : ℕ) → List (Bool × ℕ) → Bool
lacks options k [] = false
lacks options k ((there, f) ∷ rest) = (bit options k && not there) || lacks options (suc k) rest

-- The flags of the bits that are set, or-ed to `acc`.
abbrev pub or_bits : (options k acc : ℕ) → List (Bool × ℕ) → ℕ
or_bits options k acc [] = acc
or_bits options k acc ((there, f) ∷ rest) =
    or_bits options (suc k) (if bit options k then bit_or acc f else acc) rest

module _ (have_option : TraceOption → Bool) (flag : TraceOption → ℕ) (options : ℕ) where
  -- The same of the options that the code asks for.
  abbrev lacks_of : List TraceOption → Bool
  lacks_of [] = false
  lacks_of (x ∷ xs) = (requested options x && not (have_option x)) || lacks_of xs

  abbrev or_of : ℕ → List TraceOption → ℕ
  or_of acc [] = acc
  or_of acc (x ∷ xs) = or_of (if requested options x then bit_or acc (flag x) else acc) xs

  collect-or_of :
      (xs : List TraceOption) (acc : ℕ)
      → collect xs have_option flag options acc
        ≡ (if lacks_of xs then none else some (or_of acc xs))
  unfolding collect add_option Option.bind
  collect-or_of [] acc = refl
  collect-or_of (x ∷ xs) acc = elim (Bool-cases (requested options x)) [
    | inl e ↦ elim (Bool-cases (have_option x)) [
      | inl f ↦ rw (e, f) (collect-or_of xs (bit_or acc (flag x)))
      | inr f ↦ rw (e, f)
    ]
    | inr e ↦ rw e (collect-or_of xs acc)
  ]

  collect-or_bits : collect all_options have_option flag options 0 ≡ (
      if lacks options 0 (table have_option flag)
      then none
      else some (or_bits options 0 0 (table have_option flag)))
  unfolding requested
  collect-or_bits =
      let first : options / 2 ^ 0 % 2 ≡ options % 2 = omega arith in
      collect-or_of all_options 0 ∙ (rw first refl)

-- Where PTRACE_SETOPTIONS is there: if one of the nine bits of pinktrace/trace.h is set in the options of
-- which the system has no flag, pink_trace_setup returns -EINVAL and touches nothing; else it calls
-- the kernel once, with the flags of exactly those bits that are set or-ed together, each option's
-- bit at its own place.
pub setup-or_bits :
    {K : Type 0} (sys : PtraceCall K) (have : Have) (have_option : TraceOption → Bool)
    (flag : TraceOption → ℕ) (pid options : ℕ) (s : State K)
    → have.setup ≡ true
    → setup sys have have_option flag pid options s ≡ (
        if lacks options 0 (table have_option flag)
        then (neg einval, s)
        else call sys Request.setoptions pid 0
            (sext32 (or_bits options 0 0 (table have_option flag)))
            s)
unfolding setup
setup-or_bits sys have have_option flag pid options s e =
    let run = collect-or_bits have_option flag options in
    elim (Bool-cases (lacks options 0 (table have_option flag))) [
      | inl less ↦ rw (e, run, less) refl
      | inr all ↦ rw (e, run, all) refl
    ]
