-- ===== src/Trace/Signals.antt =====
-- pink_trace_kill of pinktrace/trace.c: which system call it makes, and what it returns.
use pinktrace.Prelude.{
  ℕ, ◌≡◌, ◌≢◌, ◌⊎◌, inl, inr, arith, true, false, ◌&&◌, if◌then◌else◌, ℤ, pos, negsuc, neg, is_zero,
  Bool-cases,
}
use pinktrace.System.{State, M, einval}
use pinktrace.Trace.{
  Have, KillCall, tkill, tgkill, kill_process, is_positive, or_errno, or_errno_nonzero, kill,
}

-- The most precise call that there is: a thread of its group, a thread, a process.
abbrev pub target : Have → (tid tgid sig : ℕ) → KillCall
target have tid tgid sig =
    if is_positive tgid && have.tgkill
    then tgkill tgid tid sig
    else if have.tkill
    then tkill tid sig
    else kill_process tid sig

-- The calls return 0, or -1 with an errno other than 0.
abbrev pub ReturnsStatus : {K : Type 0} → (KillCall → M K ℤ) → Type 0
ReturnsStatus {K} sys =
    (c : KillCall) (s : State K)
    → ((sys c s).0 ≡ pos 0) ⊎ (((sys c s).0 ≡ negsuc 0) × ((sys c s).1.errno ≢ 0))

abbrev pub outcome : {K : Type 0} → ℤ × State K → ℤ × State K
outcome (r, t) = (if is_zero r then pos 0 else neg t.errno, t)

module _ {K : Type 0} (sys : KillCall → M K ℤ) (c : KillCall) (s : State K)
    (h : ReturnsStatus sys) where
  or_errno-outcome : or_errno sys c s ≡ outcome (sys c s)
  unfolding or_errno
  or_errno-outcome = ground (arith, h c s)

  or_errno_nonzero-outcome : or_errno_nonzero sys c s ≡ outcome (sys c s)
  unfolding or_errno_nonzero
  or_errno_nonzero-outcome = ground (arith, h c s)

module _ {K : Type 0} (sys : KillCall → M K ℤ) (have : Have) (tid tgid sig : ℕ) (s : State K) where
  -- A thread id that is not positive is refused with -EINVAL, and no signal is sent.
  pub kill-einval : is_positive tid ≡ false → kill sys have tid tgid sig s ≡ (neg einval, s)
  unfolding kill
  kill-einval h = rw h

  -- For a positive thread id one call is made, the most precise one that the system has for the
  -- ids given; 0 is returned if it succeeds, and the negated errno if it fails.
  pub kill-target :
      ReturnsStatus sys
      → is_positive tid ≡ true
      → kill sys have tid tgid sig s ≡ outcome (sys (target have tid tgid sig) s)
  unfolding kill
  kill-target h e = elim (Bool-cases (is_positive tgid)) [
    | inr p ↦ rw (e, p) without_group
    | inl p ↦ elim (Bool-cases have.tgkill) [
      | inl g ↦ rw (e, p, g) (or_errno_nonzero-outcome sys (tgkill tgid tid sig) s h)
      | inr g ↦ rw (e, p, g) without_group
    ]
  ]
    where
      without_group :
          (if◌then◌else◌ have.tkill
              (or_errno sys (tkill tid sig))
              (or_errno sys (kill_process tid sig)))
            s
          ≡ outcome (sys (if have.tkill then tkill tid sig else kill_process tid sig) s)
      without_group = elim (Bool-cases have.tkill) [
        | inl t ↦ rw t (or_errno-outcome sys (tkill tid sig) s h)
        | inr t ↦ rw t (or_errno-outcome sys (kill_process tid sig) s h)
      ]
