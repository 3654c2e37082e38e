-- ===== src/Pipe.antt =====
-- pinktrace/pipe.c: an int through a pipe, with transfers that the kernel may cut short. The loops
-- take fuel, one round more than there are bytes.
pub mod Transfer
pub mod Ints
pub mod Cloexec
mod Tests
use pinktrace.Prelude.{
  ℕ, zero, suc, ◌+◌, ◌-◌, ◌^◌, ◌%◌, Bool, true, false, not, Option, none, some, List, [], ◌++◌,
  ◌==◌, if◌then◌else◌, ltb, take, drop, length, ℤ, pos, negsuc, neg, is_neg, is_zero, pos_part, u64,
  le_bytes, from_le,
}
use pinktrace.System.{State, M, get_errno, set_errno, pure, einval}
use pinktrace.System.Loop.{D, ◌>>=◌, ◌>>◌, ret, lift, out_of_fuel}

-- The system calls: read(2) with the bytes that it stores, write(2), pipe(2), pipe2(2) with
-- its flags and O_CLOEXEC of fcntl.h, fcntl(2) with F_GETFD and F_SETFD, and close(2).
pub record Files (K : Type 0) : Type 0 where
  pub read : (fd count : ℕ) → M K (ℤ × List ℕ)
  pub write : (fd : ℕ) → List ℕ → M K ℤ
  pub pipe : M K (ℤ × ℕ × ℕ)
  pub o_cloexec : ℕ
  pub pipe2 : (flags : ℕ) → M K (ℤ × ℕ × ℕ)
  pub get_fd : (fd : ℕ) → M K ℤ
  pub set_fd : (fd flags : ℕ) → M K ℤ
  pub close : (fd : ℕ) → M K ℤ

-- count != sizeof(int), for a count that may be -1
pub is_not_int : ℤ → Bool
is_not_int (pos n) = not (n == 4)
is_not_int (negsuc n) = true

-- flags | FD_CLOEXEC
or_cloexec : ℕ → ℕ
or_cloexec flags = if flags % 2 == 0 then flags + 1 else flags

module _ {K : Type 0} (sys : Files K) where
  set_cloexec_flag : (fd : ℕ) → D K ℤ
  unfolding or_cloexec
  set_cloexec_flag fd = do
    flags ← lift (sys.get_fd fd)
    e ← lift get_errno
    if is_neg flags
        then ret (neg e)
        else if or_cloexec (pos_part flags) == pos_part flags
        then ret (pos 0)
        else (do
          r ← lift (sys.set_fd fd (or_cloexec (pos_part flags)))
          e' ← lift get_errno
          ret (if is_zero r then pos 0 else neg e'))

  atomic_read_loop : (fd : ℕ) → (fuel count total : ℕ) → (buf : List ℕ) → D K (ℤ × List ℕ)
  atomic_read_loop fd zero count total buf = out_of_fuel
  atomic_read_loop fd (suc fuel) count total buf = if count == 0 then ret (pos total, buf) else do
    (r, got) ← lift (sys.read fd count)
    if is_neg r
        then ret (if ltb 0 total then pos total else negsuc 0, buf)
        else if is_zero r
        then ret (pos total, buf)
        else atomic_read_loop fd fuel (u64 (count + 2 ^ 64 - pos_part r)) (total + pos_part r)
            (buf ++ got)

  pub atomic_read : (fd count : ℕ) → D K (ℤ × List ℕ)
  unfolding atomic_read_loop
  atomic_read fd count = atomic_read_loop fd (suc count) count 0 []

  -- The buffer is what is left to write, with its length in `count`.
  atomic_write_loop : (fd : ℕ) → (fuel count total : ℕ) → (buf : List ℕ) → D K ℤ
  atomic_write_loop fd zero count total buf = out_of_fuel
  atomic_write_loop fd (suc fuel) count total buf = if count == 0 then ret (pos total) else do
    r ← lift (sys.write fd (take count buf))
    if is_neg r
        then ret (if ltb 0 total then pos total else negsuc 0)
        else if is_zero r
        then ret (pos total)
        else atomic_write_loop fd fuel (u64 (count + 2 ^ 64 - pos_part r)) (total + pos_part r)
            (drop (pos_part r) buf)

  pub atomic_write : (fd : ℕ) → List ℕ → D K ℤ
  unfolding atomic_write_loop
  atomic_write fd buf = atomic_write_loop fd (suc (length buf)) (length buf) 0 buf

  -- `have` is HAVE_PIPE2. The result, and the two descriptors.
  pub init : (have : Bool) → D K (ℤ × ℕ × ℕ)
  unfolding set_cloexec_flag
  init have = do
    (r, fd0, fd1) ← lift (if have then sys.pipe2 sys.o_cloexec else sys.pipe)
    e ← lift get_errno
    if is_neg r then ret (neg e, fd0, fd1) else if have then ret (pos 0, fd0, fd1) else (do
      first ← set_cloexec_flag fd0
      second ← (if is_neg first then ret first else set_cloexec_flag fd1)
      e' ← lift get_errno
      ret (if is_neg second then neg e' else pos 0, fd0, fd1))

  pub close : (fd : ℕ) → D K ℤ
  close fd = do r ← lift (sys.close fd); e ← lift get_errno; ret (if is_neg r then neg e else pos 0)

  -- errno ? -errno : -EINVAL
  failure : ℕ → ℤ
  failure e = if e == 0 then neg einval else neg e

  -- The result, and the bytes stored in the int.
  pub read_int : (fd : ℕ) → D K (ℤ × List ℕ)
  unfolding failure is_not_int
  read_int fd = do
    lift (set_errno 0)
    (count, buf) ← atomic_read fd 4
    e ← lift get_errno
    ret (if is_not_int count then failure e else pos 0, buf)

  pub write_int : (fd i : ℕ) → D K ℤ
  unfolding failure is_not_int
  write_int fd i = do
    lift (set_errno 0)
    count ← atomic_write fd (le_bytes 4 i)
    e ← lift get_errno
    ret (if is_not_int count then failure e else pos 0)
