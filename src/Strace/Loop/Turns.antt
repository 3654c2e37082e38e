-- ===== src/Strace/Loop/Turns.antt =====
-- The rounds of the loop of examples/pink-simple-strace.c as steps, and which stops it takes for the
-- entry of a system call.
use pinktrace.Prelude.{
  ℕ, suc, ◌%◌, ◌≡◌, ◌≢◌, refl, arith, ap, inl, inr, Bool, Bool-cases, true, false, not, Option,
  none, some, ◌==◌, if◌then◌else◌, ℤ, pos, is_neg, pos_part, ◌∙◌, sym,
}
use mathlib.Core.Bool.{false≢true}
use pinktrace.System.{State}
use pinktrace.System.Loop.{bind-some, then-some}
use pinktrace.Trace
use pinktrace.Event
use pinktrace.Read
use pinktrace.Name.{name_syscall}
use pinktrace.Strace.{Host, Process}
use pinktrace.Strace.Decode.{process_update, process_update-insyscall, print_ret}
use pinktrace.Strace.Loop.{
  Next, again, finished, leaving, entering, handle_syscall, decode_named, on_event, on_status,
  round,
}

-- The flag after a round that another one follows.
flag_of : {K : Type 0} → Option (Next × State K) → Bool
flag_of none = false
flag_of (some (again q, t)) = q.insyscall
flag_of (some (finished code, t)) = false

process_flag : {K : Type 0} → Option (Process × State K) → Bool
process_flag none = false
process_flag (some (q, t)) = q.insyscall

is_again : {K : Type 0} → Option (Next × State K) → Bool
is_again none = false
is_again (some (again q, t)) = true
is_again (some (finished code, t)) = false

not_again :
    {K : Type 0} {code : ℤ} {q : Process} {s t : State K}
    → ¬ (Path (Option (Next × State K)) (some (finished code, s)) (some (again q, t)))
unfolding is_again
not_again e = false≢true (ap is_again e)

parity :
    (b : Bool) (n : ℕ)
    → not (if n % 2 == 0 then b else not b) ≡ (if suc n % 2 == 0 then b else not b)
parity true n = ground arith
parity false n = ground arith

module _ {K : Type 0} (host : Host K) (fuel : ℕ) where
  -- The wait status that a round looks at.
  abbrev pub status_of : Process → State K → ℕ
  status_of proc s = (host.waitpid proc.pid (Trace.syscall host.sys.ptrace proc.pid 0 s).1).0.1

  -- The runs of the loop that have not ended: their rounds, and how many of these saw a stop without
  -- an event.
  pub data Reach (p : Process) (s : State K) : ℕ → ℕ → Process → State K → Type 0 where
    here : Reach p s 0 0 p s
    stopped :
        {m n : ℕ} {q q' : Process} {t t' : State K}
        → Reach p s m n q t
        → round host fuel q t ≡ some (again q', t')
        → Event.decide (status_of q t) ≡ 0
        → Reach p s (suc m) (suc n) q' t'
    passed :
        {m n : ℕ} {q q' : Process} {t t' : State K}
        → Reach p s m n q t
        → round host fuel q t ≡ some (again q', t')
        → Event.decide (status_of q t) ≢ 0
        → Reach p s (suc m) n q' t'

  leaving-turns :
      (p q : Process) (s t : State K) → leaving host fuel p s ≡ some (q, t) → q.insyscall ≡ false
  unfolding leaving process_flag
  leaving-turns p q s t e =
      let (u, last) = then-some (print_ret host p) _ _ (q, t) e in sym (ap process_flag last)

  entering-turns :
      (p q : Process) (s t : State K) → entering host fuel p s ≡ some (q, t) → q.insyscall ≡ true
  unfolding entering process_flag
  entering-turns p q s t e =
      let scno = Read.syscall host.layout p.regs in
      let (u, last) =
        then-some (decode_named host fuel p scno (name_syscall host.build scno (pos p.abi))) _ _
          (q, t) e in
      sym (ap process_flag last)

  handle_syscall-turns :
      (p q : Process) (s t : State K)
      → handle_syscall host fuel p s ≡ some (q, t)
      → q.insyscall ≡ not p.insyscall
  unfolding handle_syscall
  handle_syscall-turns p q s t e = elim (Bool-cases p.insyscall) [
    | inl inside ↦ rw inside (leaving-turns _ q s t (rw (handle_syscall, inside) at e))
    | inr outside ↦ rw outside (entering-turns _ q s t (rw (handle_syscall, outside) at e))
  ]

  on_event-turns :
      (event : ℕ) (p q : Process) (s t : State K)
      → on_event host fuel event p s ≡ some (again q, t)
      → q.insyscall ≡ (if event == 0 then not p.insyscall else p.insyscall)
  unfolding on_event flag_of
  on_event-turns event p q s t e = elim (Bool-cases (event == 0)) [
    | inl stop ↦
        let run = rw (on_event, stop) at e in
        let (p', u, handled, last) = bind-some (handle_syscall host fuel _) _ _ (again q, t) run in
        rw stop (
          sym (ap flag_of last)
          ∙ handle_syscall-turns (process_update host p s).0 p' (process_update host p s).1 u
              handled
          ∙ ap not (process_update-insyscall host p s))
    | inr other ↦ elim (Bool-cases (event == Event.number Event.exec)) [
      | inl exec ↦
          let run = rw (on_event, other, exec) at e in
          rw other (sym (ap flag_of run) ∙ process_update-insyscall host p s)
      | inr none_known ↦
          let run = rw (on_event, other, none_known) at e in rw other (sym (ap flag_of run))
    ]
  ]

  on_status-turns :
      (status : ℕ) (p q : Process) (s t : State K)
      → on_status host fuel status p s ≡ some (again q, t)
      → q.insyscall ≡ (if Event.decide status == 0 then not p.insyscall else p.insyscall)
  unfolding on_status
  on_status-turns status p q s t e = elim (Bool-cases (host.headers.wifexited status)) [
    | inl exited ↦ absurd (not_again (rw (on_status, exited) at e))
    | inr running ↦ elim (Bool-cases (host.headers.wifsignaled status)) [
      | inl killed ↦ absurd (not_again (rw (on_status, running, killed) at e))
      | inr halted ↦
          on_event-turns (Event.decide status) p q s t (rw (on_status, running, halted) at e)
    ]
  ]

  round-turns :
      (p q : Process) (s t : State K)
      → round host fuel p s ≡ some (again q, t)
      → q.insyscall ≡ (if Event.decide (status_of p s) == 0 then not p.insyscall else p.insyscall)
  unfolding round
  round-turns p q s t e =
      let resumed = Trace.syscall host.sys.ptrace p.pid 0 s in
      let waited = host.waitpid p.pid resumed.1 in
      elim (Bool-cases (is_neg resumed.0)) [
        | inl failed ↦ absurd (not_again (rw (round, failed) at e))
        | inr runs ↦ elim (Bool-cases (is_neg waited.0.0)) [
          | inl lost ↦ absurd (not_again (rw (round, runs, lost) at e))
          | inr there ↦
              on_status-turns waited.0.1 (record p { pid = pos_part waited.0.0 }) q waited.1 t
                (rw (round, runs, there) at e)
        ]
      ]

  -- Whatever the kernel, the C library and the decoders do, the flag that says whether the next stop
  -- is the end of a system call has been turned once for each stop without an event, and by nothing
  -- else: it is as at the start exactly where their number is even.
  pub Reach-insyscall :
      (p : Process) (s : State K) (m n : ℕ) (q : Process) (t : State K)
      → Reach p s m n q t
      → q.insyscall ≡ (if n % 2 == 0 then p.insyscall else not p.insyscall)
  Reach-insyscall p s m n q t here = refl
  Reach-insyscall p s (suc m) (suc n) q' t' (stopped {q = q} {t = t} r e z) =
      let before = Reach-insyscall p s m n q t r in
      let turned : q'.insyscall ≡ not q.insyscall = rw z at (round-turns q q' t t' e) in
      turned ∙ ap not before ∙ parity p.insyscall n
  Reach-insyscall p s (suc m) n q' t' (passed {q = q} {t = t} r e z) =
      let other : (Event.decide (status_of q t) == 0) ≡ false = ground (arith, z) in
      let kept : q'.insyscall ≡ q.insyscall = rw other at (round-turns q q' t t' e) in
      kept ∙ Reach-insyscall p s m n q t r
