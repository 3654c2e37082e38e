-- ===== src/Event.antt =====
-- pinktrace/event.h and pinktrace/event.c: ptrace events in the status of waitpid(2).
use pinktrace.Prelude.{ℕ, ◌+◌, ◌*◌, ◌/◌, ◌^◌, ◌<◌, ◌≡◌, arith, u32}

-- enum pink_event
pub data Event : Type 0 where
  none_event fork vfork clone exec vfork_done exit seccomp stop : Event

unfoldable pub number : Event → ℕ
number none_event = 0
number fork = 1
number vfork = 2
number clone = 3
number exec = 4
number vfork_done = 5
number exit = 6
number seccomp = 7
number stop = 128

-- (unsigned)status >> 16
unfoldable pub decide : ℕ → ℕ
decide status = u32 status / 2 ^ 16

-- The status of a child that stopped by signal `sig` with a ptrace event: ptrace(2) has
-- status >> 8 == (sig | event << 8), and the low byte of a stop is 0x7f.
abbrev pub stop_status : (sig event : ℕ) → ℕ
stop_status sig event = event * 2 ^ 16 + sig * 2 ^ 8 + 0x7f

-- The event of a ptrace stop is read back from its status, for every stop signal below 256 and
-- every event number of 16 bits.
pub decide-stop_status :
    (sig event : ℕ) → sig < 2 ^ 8 → event < 2 ^ 16 → decide (stop_status sig event) ≡ event
unfolding decide
decide-stop_status sig event h k = omega arith
