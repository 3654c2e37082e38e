-- ===== src/Pipe/Ints.antt =====
-- pinktrace/pipe.c: an int through a pipe that cuts transfers short.
use pinktrace.Prelude.{
  ℕ, ◌^◌, ◌≤◌, ◌<◌, ◌≡◌, arith, ap, ◌∙◌, none, some, if◌then◌else◌, List, [], ◌++◌, take, drop,
  length, pos, le_bytes, from_le,
}
use pinktrace.System.{State}
use pinktrace.Pipe.{Files, read_int, write_int, is_not_int, failure}
use pinktrace.Pipe.Transfer.{Pipes, atomic_read-take, atomic_write-append}

module _ {K : Type 0} (sys : Files K) (read_fd write_fd : ℕ) (queue : K → List ℕ)
    (pipe : Pipes sys read_fd write_fd queue) where
  write_int-queue :
      (i : ℕ) (s : State K)
      → (k : K) × (write_int sys write_fd i s ≡ some (pos 0, record { errno = 0; kernel = k }))
        × (queue k ≡ queue s.kernel ++ le_bytes 4 i)
  unfolding write_int is_not_int
  write_int-queue i s =
      let (k, r, e) =
        atomic_write-append sys read_fd write_fd queue pipe (le_bytes 4 i) (record s { errno = 0 })
          (omega arith) in
      (
        k,
        ap
            (λ x. elim x [
              | none ↦ none
              | some (c, t) ↦ some (if is_not_int c then failure sys t.errno else pos 0, t)
            ])
            r,
        e,
      )

  read_int-take :
      (s : State K)
      → 4 ≤ length (queue s.kernel)
      → (k : K) × (read_int sys read_fd s
          ≡ some ((pos 0, take 4 (queue s.kernel)), record { errno = 0; kernel = k }))
        × (queue k ≡ drop 4 (queue s.kernel))
  unfolding read_int is_not_int
  read_int-take s h =
      let (k, r, e) =
        atomic_read-take sys read_fd write_fd queue pipe 4 (record s { errno = 0 }) (omega arith)
          h in
      (
        k,
        ap
            (λ x. elim x [
              | none ↦ none
              | some ((c, buf), t) ↦
                  some ((if is_not_int c then failure sys t.errno else pos 0, buf), t)
            ])
            r,
        e,
      )

  -- On an empty pipe: pink_pipe_write_int of a 32-bit value returns 0, a pink_pipe_read_int after it
  -- returns 0 and stores the bytes of that value, and the pipe is empty again, however the kernel
  -- cuts the transfers up.
  pub read_int-write_int :
      (i : ℕ) (s : State K)
      → i < 2 ^ 32
      → queue s.kernel ≡ []
      → (k : K) × (write_int sys write_fd i s ≡ some (pos 0, record { errno = 0; kernel = k }))
        × (k' : K) × (bytes : List ℕ) × (read_int sys read_fd (record { errno = 0; kernel = k })
            ≡ some ((pos 0, bytes), record { errno = 0; kernel = k' }))
        × (from_le bytes ≡ i)
        × (queue k' ≡ [])
  read_int-write_int i s b h =
      let (k, r, e) = write_int-queue i s in
      let only : queue k ≡ le_bytes 4 i = e ∙ ap (λ q. q ++ le_bytes 4 i) h in
      let four : 4 ≤ length (queue k) = rw only (omega arith) in
      let (k', r', e') = read_int-take (record { errno = 0; kernel = k }) four in
      (
        k,
        r,
        k',
        take 4 (queue k),
        r',
        ap (λ q. from_le (take 4 q)) only ∙ value,
        e' ∙ ap (drop 4) only,
      )
    where
      value : from_le (le_bytes 4 i) ≡ i
      value = omega arith
