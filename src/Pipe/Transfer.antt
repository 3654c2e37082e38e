-- ===== src/Pipe/Transfer.antt =====
-- pinktrace/pipe.c against a pipe that moves any number of bytes in one call.
use mathlib.Core.List.{append-nil, append_assoc}
use pinktrace.Prelude.{
  take_more, drop_more, take_all, take-drop, ℕ, zero, suc, ◌+◌, ◌-◌, ◌^◌, ◌≤◌, ◌<◌, ◌≡◌, refl,
  arith, ap, ap₂, sym, ◌∙◌, false, List, [], ◌∷◌, ◌++◌, take, drop, length, some, pos, is_zero,
  length-drop, u64, ◌==◌,
}
use pinktrace.System.{State}
use pinktrace.System.Loop.{◌>>=◌}
use pinktrace.Pipe.{Files, atomic_read, atomic_read_loop, atomic_write, atomic_write_loop}

-- A pipe: `queue` are the bytes in it. A call moves at least one byte, and at most as many as are
-- asked for, where there are any to move; it leaves errno alone.
pub record Pipes {K : Type 0} (sys : Files K) (read_fd write_fd : ℕ) (queue : K → List ℕ)
    : Type 0 where
  pub moved : State K → ℕ → ℕ
  pub some_moved : (s : State K) (n : ℕ) → 0 < n → 0 < moved s n
  pub no_more : (s : State K) (n : ℕ) → moved s n ≤ n
  pub next : State K → ℕ → K
  pub reads :
      (s : State K) (n : ℕ)
      → n ≤ length (queue s.kernel)
      → sys.read read_fd n s
        ≡ ((pos (moved s n), take (moved s n) (queue s.kernel)), record s { kernel = next s n })
  pub left : (s : State K) (n : ℕ) → queue (next s n) ≡ drop (moved s n) (queue s.kernel)
  pub after : State K → List ℕ → K
  pub writes :
      (s : State K) (bytes : List ℕ)
      → sys.write write_fd bytes s
        ≡ (pos (moved s (length bytes)), record s { kernel = after s bytes })
  pub added :
      (s : State K) (bytes : List ℕ)
      → queue (after s bytes) ≡ queue s.kernel ++ take (moved s (length bytes)) bytes

is_zero-pos : (n : ℕ) → 0 < n → is_zero (pos n) ≡ false
is_zero-pos zero h = absurd (omega arith)
is_zero-pos (suc n) h = refl

module _ {K : Type 0} (sys : Files K) (read_fd write_fd : ℕ) (queue : K → List ℕ)
    (pipe : Pipes sys read_fd write_fd queue) where
  -- One round moves some of the bytes.
  atomic_read_loop_round :
      (fuel n total : ℕ) (buf : List ℕ) (s : State K)
      → 0 < n
      → n < 2 ^ 64
      → n ≤ length (queue s.kernel)
      → let m = pipe.moved s n in
        atomic_read_loop sys read_fd (suc fuel) n total buf s
        ≡ atomic_read_loop sys read_fd fuel
            (n - m)
            (total + m)
            (buf ++ take m (queue s.kernel))
            (record s { kernel = pipe.next s n })
  unfolding atomic_read_loop
  atomic_read_loop_round fuel n total buf s p b h =
      let m = pipe.moved s n in
      let q : m ≤ n = pipe.no_more s n in
      let going : (n == 0) ≡ false = ground arith in
      let rest : u64 (n + 2 ^ 64 - m) ≡ n - m = omega arith in
      rw (
        atomic_read_loop,
        going,
        ◌>>=◌,
        pipe.reads s n h,
        is_zero-pos m (pipe.some_moved s n p),
        rest,
      )

  atomic_read_loop-take :
      (fuel n total : ℕ) (buf : List ℕ) (s : State K)
      → n < fuel
      → n < 2 ^ 64
      → n ≤ length (queue s.kernel)
      → (k : K) × (atomic_read_loop sys read_fd fuel n total buf s
          ≡ some ((pos (total + n), buf ++ take n (queue s.kernel)), record s { kernel = k }))
        × (queue k ≡ drop n (queue s.kernel))
  unfolding atomic_read_loop
  atomic_read_loop-take zero n total buf s f b h = absurd (omega arith)
  atomic_read_loop-take (suc fuel) zero total buf s f b h =
      let e : total + 0 ≡ total = omega arith in (s.kernel, rw (e, append-nil) refl, refl)
  atomic_read_loop-take (suc fuel) (suc n) total buf s f b h =
      let m = pipe.moved s (suc n) in
      let p : 0 < m = pipe.some_moved s (suc n) (omega arith) in
      let q : m ≤ suc n = pipe.no_more s (suc n) in
      let s' : State K = record s { kernel = pipe.next s (suc n) } in
      let enough : suc n - m ≤ length (queue s'.kernel) =
        (rw (pipe.left s (suc n), length-drop) (omega arith)) in
      let (k, r, e) =
        atomic_read_loop-take fuel (suc n - m) (total + m) (buf ++ take m (queue s.kernel)) s'
          (omega arith) (omega arith) enough in
      let count : total + m + (suc n - m) ≡ total + suc n = omega arith in
      (
        k,
        atomic_read_loop_round fuel (suc n) total buf s (omega arith) b h
            ∙ r
            ∙ ap₂ (λ c bs. some ((pos c, bs), record s { kernel = k })) count
                (append_assoc buf (take m (queue s.kernel)) _
                  ∙ ap (λ bs. buf ++ bs)
                      (ap (λ bs. take m (queue s.kernel) ++ take (suc n - m) bs)
                          (pipe.left s (suc n))
                        ∙ take_more (queue s.kernel) m (suc n) q)),
        e ∙ ap (drop (suc n - m)) (pipe.left s (suc n)) ∙ drop_more (queue s.kernel) m (suc n) q,
      )

  -- As long as enough bytes are in the pipe, atomic_read returns the count asked for, and has taken
  -- exactly that many bytes from it, however the kernel cuts the transfer up.
  pub atomic_read-take :
      (n : ℕ) (s : State K)
      → n < 2 ^ 64
      → n ≤ length (queue s.kernel)
      → (k : K) × (atomic_read sys read_fd n s
          ≡ some ((pos n, take n (queue s.kernel)), record s { kernel = k }))
        × (queue k ≡ drop n (queue s.kernel))
  unfolding atomic_read
  atomic_read-take n s b h =
      let (k, r, e) = atomic_read_loop-take (suc n) n 0 [] s (omega arith) b h in
      let count : 0 + n ≡ n = omega arith in
      (k, r ∙ ap (λ c. some ((pos c, take n (queue s.kernel)), record s { kernel = k })) count, e)

  atomic_write_loop_round :
      (fuel n total : ℕ) (buf : List ℕ) (s : State K)
      → 0 < n
      → n < 2 ^ 64
      → n ≡ length buf
      → let m = pipe.moved s n in
        atomic_write_loop sys write_fd (suc fuel) n total buf s
        ≡ atomic_write_loop sys write_fd fuel
            (n - m)
            (total + m)
            (drop m buf)
            (record s { kernel = pipe.after s buf })
  unfolding atomic_write_loop
  atomic_write_loop_round fuel n total buf s p b h =
      let m = pipe.moved s n in
      let q : m ≤ n = pipe.no_more s n in
      let going : (n == 0) ≡ false = ground arith in
      let rest : u64 (n + 2 ^ 64 - m) ≡ n - m = omega arith in
      let all : take n buf ≡ buf = ap (λ x. take x buf) h ∙ take_all buf in
      let moves : pipe.moved s (length buf) ≡ m = ap (pipe.moved s) (sym h) in
      rw (
        atomic_write_loop,
        going,
        ◌>>=◌,
        all,
        pipe.writes s buf,
        moves,
        is_zero-pos m (pipe.some_moved s n p),
        rest,
      )

  atomic_write_loop-append :
      (fuel n total : ℕ) (buf : List ℕ) (s : State K)
      → n < fuel
      → n < 2 ^ 64
      → n ≡ length buf
      → (k : K) × (atomic_write_loop sys write_fd fuel n total buf s
          ≡ some (pos (total + n), record s { kernel = k }))
        × (queue k ≡ queue s.kernel ++ buf)
  unfolding atomic_write_loop
  atomic_write_loop-append zero n total buf s f b h = absurd (omega arith)
  atomic_write_loop-append (suc fuel) zero total [] s f b h =
      let e : total + 0 ≡ total = omega arith in
      (s.kernel, rw e refl, sym (append-nil (queue s.kernel)))
  atomic_write_loop-append (suc fuel) zero total (x ∷ buf) s f b h = absurd (omega arith)
  atomic_write_loop-append (suc fuel) (suc n) total buf s f b h =
      let m = pipe.moved s (suc n) in
      let p : 0 < m = pipe.some_moved s (suc n) (omega arith) in
      let q : m ≤ suc n = pipe.no_more s (suc n) in
      let s' : State K = record s { kernel = pipe.after s buf } in
      let size : suc n - m ≡ length (drop m buf) = ap (λ x. x - m) h ∙ sym (length-drop m buf) in
      let (k, r, e) =
        atomic_write_loop-append fuel (suc n - m) (total + m) (drop m buf) s' (omega arith)
          (omega arith) size in
      let count : total + m + (suc n - m) ≡ total + suc n = omega arith in
      (
        k,
        atomic_write_loop_round fuel (suc n) total buf s (omega arith) b h
            ∙ r
            ∙ ap (λ c. some (pos c, record s { kernel = k })) count,
        e
            ∙ ap (λ bs. bs ++ drop m buf) (pipe.added s buf)
            ∙ append_assoc (queue s.kernel) _ _
            ∙ ap (λ x. queue s.kernel ++ (take (pipe.moved s x) buf ++ drop m buf)) (sym h)
            ∙ ap (λ bs. queue s.kernel ++ bs) (take-drop m buf),
      )

  -- atomic_write returns the number of bytes, and the pipe has all of them behind those that it had,
  -- however the kernel cuts the transfer up.
  pub atomic_write-append :
      (buf : List ℕ) (s : State K)
      → length buf < 2 ^ 64
      → (k : K) × (atomic_write sys write_fd buf s
          ≡ some (pos (length buf), record s { kernel = k }))
        × (queue k ≡ queue s.kernel ++ buf)
  unfolding atomic_write
  atomic_write-append buf s b =
      let (k, r, e) =
        atomic_write_loop-append (suc (length buf)) (length buf) 0 buf s (omega arith) b refl in
      let count : 0 + length buf ≡ length buf = omega arith in
      (k, r ∙ ap (λ c. some (pos c, record s { kernel = k })) count, e)
