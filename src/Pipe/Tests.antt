-- ===== src/Pipe/Tests.antt =====
-- A pipe that moves at most three bytes in one call, and a table of descriptor flags.
use pinktrace.Prelude.{
  false, if◌then◌else◌, ◌==◌, ◌%◌, ℕ, ◌≡◌, refl, arith, List, [], ◌++◌, take, drop, length, min,
  some, pos, from_le,
}
use pinktrace.System.{State}
use pinktrace.Pipe.{Files, read_int, write_int, init}
use pinktrace.Pipe.Cloexec.{Descriptors, init-Cloexec}
use pinktrace.Pipe.Transfer.{Pipes}
use pinktrace.Pipe.Ints.{read_int-write_int}

abbrev by_threes : Files (List ℕ)
by_threes = record {
  read = λ fd n s.
      ((pos (min n 3), take (min n 3) s.kernel), record s { kernel = drop (min n 3) s.kernel });
  write = λ fd bytes s. (
    pos (min (length bytes) 3),
    record s { kernel = s.kernel ++ take (min (length bytes) 3) bytes },
  );
  pipe = λ s. ((pos 0, 3, 4), s);
  o_cloexec = 0x80000;
  pipe2 = λ flags s. ((pos 0, 3, 4), s);
  get_fd = λ fd s. (pos 0, s);
  set_fd = λ fd flags s. (pos 0, s);
  close = λ fd s. (pos 0, s);
}

by_threes-Pipes : Pipes by_threes 3 4 (λ k. k)
by_threes-Pipes = record {
  moved = λ s n. min n 3;
  some_moved = λ s n h. omega arith;
  no_more = λ s n. omega arith;
  next = λ s n. drop (min n 3) s.kernel;
  reads = λ s n h. refl;
  left = λ s n. refl;
  after = λ s bytes. s.kernel ++ take (min (length bytes) 3) bytes;
  writes = λ s bytes. refl;
  added = λ s bytes. refl;
}

abbrev empty : State (List ℕ)
empty = record { errno = 4; kernel = [] }

read_int-write_int_example :
    (k : List ℕ) × (write_int by_threes 4 0xdeadbeef empty
      ≡ some (pos 0, record { errno = 0; kernel = k }))
    × (k' : List ℕ) × (bytes : List ℕ) × (read_int by_threes 3 (record { errno = 0; kernel = k })
        ≡ some ((pos 0, bytes), record { errno = 0; kernel = k' }))
    × (from_le bytes ≡ 0xdeadbeef)
    × (k' ≡ [])
read_int-write_int_example =
    read_int-write_int by_threes 3 4 (λ k. k) by_threes-Pipes 0xdeadbeef empty (omega arith) refl

-- The flags of each descriptor; pipe(2) opens 3 and 4.
abbrev flag_table : Files (ℕ → ℕ)
flag_table = record {
  read = λ fd n s. ((pos 0, []), s);
  write = λ fd bytes s. (pos 0, s);
  pipe = λ s. ((pos 0, 3, 4), s);
  o_cloexec = 0x80000;
  pipe2 = λ flags s. ((pos 0, 3, 4), record s { kernel = λ n. if flags == 0x80000 then 1 else 0 });
  get_fd = λ fd s. (pos (s.kernel fd), s);
  set_fd = λ fd v s. (pos 0, record s { kernel = λ n. if n == fd then v else s.kernel n });
  close = λ fd s. (pos 0, s);
}

flag_table-Descriptors : Descriptors flag_table (λ k. k)
flag_table-Descriptors = record {
  gets = λ s fd. refl;
  marked = λ k fd v n. if n == fd then v else k n;
  sets = λ s fd v. refl;
  stored = λ k fd v. ground arith;
  kept = λ k fd v other h. ground arith;
  fd0 = λ k. 3;
  fd1 = λ k. 4;
  apart = λ k. omega arith;
  opened = λ k. k;
  pipes = λ s. refl;
  opened2 = λ k n. 1;
  pipes2 = λ s. refl;
  both = λ k. (refl, refl);
}

abbrev unmarked : State (ℕ → ℕ)
unmarked = record { errno = 0; kernel = λ n. 0 }

init-Cloexec_example :
    (k : ℕ → ℕ) × (fd0 : ℕ) × (fd1 : ℕ) × (init flag_table false unmarked
      ≡ some ((pos 0, fd0, fd1), record unmarked { kernel = k }))
    × (k fd0 % 2 ≡ 1)
    × (k fd1 % 2 ≡ 1)
init-Cloexec_example = init-Cloexec flag_table (λ k. k) flag_table-Descriptors false unmarked
