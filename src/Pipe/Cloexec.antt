-- ===== src/Pipe/Cloexec.antt =====
-- pink_pipe_init of pinktrace/pipe.c and the close-on-exec flags of the two descriptors.
use pinktrace.Prelude.{
  ℕ, ◌+◌, ◌%◌, ◌≡◌, ◌≢◌, refl, arith, ap, ◌∙◌, inl, inr, Bool, true, false, Bool-cases, some, ◌==◌,
  ℤ, pos,
}
use pinktrace.System.{State}
use pinktrace.System.Loop.{D, ◌>>=◌}
use pinktrace.Pipe.{Files, set_cloexec_flag, or_cloexec, init}

-- The descriptor flags, of which FD_CLOEXEC is the lowest: fcntl(2) reads and sets them, pipe(2) opens
-- two descriptors, and pipe2(2) with O_CLOEXEC sets the flag of both.
pub record Descriptors {K : Type 0} (sys : Files K) (flags : K → ℕ → ℕ) : Type 0 where
  pub gets : (s : State K) (fd : ℕ) → sys.get_fd fd s ≡ (pos (flags s.kernel fd), s)
  pub marked : K → ℕ → ℕ → K
  pub sets :
      (s : State K) (fd v : ℕ)
      → sys.set_fd fd v s ≡ (pos 0, record s { kernel = marked s.kernel fd v })
  pub stored : (k : K) (fd v : ℕ) → flags (marked k fd v) fd ≡ v
  pub kept : (k : K) (fd v other : ℕ) → other ≢ fd → flags (marked k fd v) other ≡ flags k other
  pub fd0 : K → ℕ
  pub fd1 : K → ℕ
  pub apart : (k : K) → fd0 k ≢ fd1 k
  pub opened : K → K
  pub pipes :
      (s : State K)
      → sys.pipe s ≡ ((pos 0, fd0 s.kernel, fd1 s.kernel), record s { kernel = opened s.kernel })
  pub opened2 : K → K
  pub pipes2 :
      (s : State K)
      → sys.pipe2 sys.o_cloexec s
        ≡ ((pos 0, fd0 s.kernel, fd1 s.kernel), record s { kernel = opened2 s.kernel })
  pub both : (k : K) → (flags (opened2 k) (fd0 k) % 2 ≡ 1) × (flags (opened2 k) (fd1 k) % 2 ≡ 1)

module _ {K : Type 0} (sys : Files K) (flags : K → ℕ → ℕ) (files : Descriptors sys flags) where
  set_cloexec_flag-marks :
      (fd : ℕ) (s : State K)
      → (k : K) × (set_cloexec_flag sys fd s ≡ some (pos 0, record s { kernel = k }))
        × (flags k fd % 2 ≡ 1)
        × ((other : ℕ) → other ≢ fd → flags k other ≡ flags s.kernel other)
  unfolding set_cloexec_flag or_cloexec
  set_cloexec_flag-marks fd s =
      let f = flags s.kernel fd in
      elim (Bool-cases (f % 2 == 0)) [
        | inl clear ↦
            let even : f % 2 ≡ 0 = ground arith in
            let changed : (f + 1 == f) ≡ false = ground arith in
            let odd : (f + 1) % 2 ≡ 1 = omega arith in
            (
              files.marked s.kernel fd (f + 1),
              rw (set_cloexec_flag, ◌>>=◌, files.gets s fd, clear, changed, files.sets s fd (f + 1))
                  refl,
              ap (λ x. x % 2) (files.stored s.kernel fd (f + 1)) ∙ odd,
              files.kept s.kernel fd (f + 1),
            )
        | inr set ↦
            let odd : f % 2 ≡ 1 = ground arith in
            let same : (f == f) ≡ true = ground arith in
            (
              s.kernel,
              rw (set_cloexec_flag, ◌>>=◌, files.gets s fd, set, same) refl,
              odd,
              λ other h. refl,
            )
      ]

  -- What set_cloexec_flag does, before the rest of the caller.
  then-marked :
      {A : Type 0} (fd : ℕ) (s : State K) (k : K) (rest : ℤ → D K A)
      → set_cloexec_flag sys fd s ≡ some (pos 0, record s { kernel = k })
      → (set_cloexec_flag sys fd >>= rest) s ≡ rest (pos 0) (record s { kernel = k })
  then-marked fd s k rest r = rw (◌>>=◌, r) refl

  -- With pipe2(2) and without it, pink_pipe_init returns 0 and two descriptors which both have
  -- FD_CLOEXEC set; the calls of it that open the pipe and read and set the flags succeed.
  pub init-Cloexec :
      (have : Bool) (s : State K)
      → (k : K) × (fd0 : ℕ) × (fd1 : ℕ) × (init sys have s
          ≡ some ((pos 0, fd0, fd1), record s { kernel = k }))
        × (flags k fd0 % 2 ≡ 1)
        × (flags k fd1 % 2 ≡ 1)
  unfolding init
  init-Cloexec true s =
      let (first, second) = files.both s.kernel in
      (_, _, _, rw (init, ◌>>=◌, files.pipes2 s) refl, first, second)
  init-Cloexec false s =
      let s0 : State K = record s { kernel = files.opened s.kernel } in
      let a = files.fd0 s.kernel in
      let b = files.fd1 s.kernel in
      let (k1, r1, first, kept1) = set_cloexec_flag-marks a s0 in
      let (k2, r2, second, kept2) = set_cloexec_flag-marks b (record s { kernel = k1 }) in
      (
        k2,
        a,
        b,
        rw (init, ◌>>=◌, files.pipes s, r1)
            (rw (files.pipes s) (then-marked b (record s { kernel = k1 }) k2 _ r2)),
        ap (λ x. x % 2) (kept2 a (files.apart s.kernel)) ∙ first,
        second,
      )
