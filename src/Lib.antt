-- ===== src/Lib.antt =====
-- pinktrace is a C library around ptrace(2): it traces processes, names system calls, errors and
-- signals, and reads and writes the registers and the memory of a tracee.
--
-- Parts, and the file of this library that models each (paths from the repository's root):
-- - pinktrace/trace.c: Trace. `ptrace` is pink_ptrace, which every other function calls; `setup`
--   is pink_trace_setup, `kill` is pink_trace_kill, and so on. Trace/Status has what pink_ptrace
--   reports, Trace/Options and Trace/Signals the two functions that decide something.
-- - pinktrace/name.c and pinktrace/linux/: Name, for any tables; Name/Tables has the tables and
--   Name/Builds those of each architecture. Name/Xlat, Name/Entries, Name/Shuffle, Name/Unique,
--   Name/Architectures and Name/X86_64 relate names and numbers.
-- - pinktrace/event.c: Event. pinktrace/abi.c with pinktrace/abi.h and pinktrace/private.h: Abi.
-- - pinktrace/regset.c with struct pink_regset of pinktrace/private.h: Regset, an array of 32-bit
--   words which the two register structures overlay. Regset/Convert is about the conversion.
-- - pinktrace/read.c and pinktrace/write.c: Read and Write in a build for x86-64, and Word, the
--   word accesses. Read/Registers and Write/Registers are about registers, Read/Data and
--   Write/Data about memory, Read/Copy about what the callers of pink_read_vm_data_full may count
--   on, Read/Strings about pink_read_vm_data_nul and Read/Members about pink_read_string_array.
-- - Powerpc and Aarch64: the branches of read.c, write.c and regset.c for 64-bit PowerPC and
--   AArch64; Powerpc/Narrow, I386 and Arm: those for 32-bit PowerPC, i386 and ARM, where a `long`
--   has 4 bytes (Word/Narrow). Arm/Syscall is about system call numbers, and the modules Registers of
--   Powerpc, Powerpc/Narrow, Aarch64, I386 and Arm about registers that are written and read again.
--   Powerpc/Retval is about return values, Aarch64/Words about the words of the union, Aarch64/Stored
--   about PTRACE_SETREGSET and PTRACE_GETREGSET, Read/Negated about the test of return values for
--   errors and Word/UserArea about the words of the user area.
-- - pinktrace/vm.c: Vm. Vm/Memory states what the kernel calls say of the tracee's memory, and
--   Vm/Lread is about pink_vm_lread, Vm/NulRound and Vm/LreadNul about pink_vm_lread_nul,
--   Vm/Lwrite and Vm/Lwrite/Partial about pink_vm_lwrite, Vm/Chunk and Vm/CreadNul about
--   pink_vm_cread_nul, Vm/SameString about the two functions that read strings and Vm/Returns about the end of the
--   loops.
-- - pinktrace/socket.c: Socket in a build for x86-64, Socket/Decode on the arguments of socketcall,
--   and Socket/WellFormed on the buffer of the address; Read/Total has what it calls of read.c.
-- - pinktrace/pipe.c: Pipe; Pipe/Transfer and Pipe/Ints are about a pipe that cuts transfers
--   short, and Pipe/Cloexec about the flags of the descriptors.
-- - examples/pink-simple-strace.c: Strace, in a build for x86-64; Strace/Decode has the functions
--   that print (Strace/Decode/Socketcall that for socketcall), Strace/Loop handle_syscall and the
--   loop of main, Strace/Main the rest of main. Strace/Decode/Open is about decode_open,
--   Strace/Loop/Turns about the rounds of the loop.
--
-- - python/pinktrace/: Python has the macros of py-pink.h, Python/Trace, Python/Name (with the
--   modules event and abi) and Python/Registers the functions. Python/Protocol is about results and
--   exceptions, Python/Names about names; Trace/Supported has which functions may return -ENOSYS.
--
-- The C library, CPython and the kernel are not part of the program: ptrace(2), the kill calls and the
-- process_vm calls are functions that the definitions take, over a state `K` of any type (System).
-- errno stands beside that state. What a theorem needs of such a function is a hypothesis, and the
-- Tests modules give a function that meets it. A pointer to a result is a value that is returned,
-- as an Option where the call may leave it alone.
--
-- A `long`, a register or a pointer is its 64-bit pattern, a number below 2 ^ 64, with the wrap
-- written out, and in the builds for 32 bits its 32-bit pattern; `int` and `ssize_t` results that are
-- tested for < 0 are integers (`ℤ`). A `long` has 8 bytes, the lowest first.
--
-- The loops of vm.c and pipe.c run on fuel, one round more than the length asked for: each round
-- moves at least one byte, or ends the loop. A run that has used its fuel is `none`. The loops of
-- the tracer end only by what the tracee does; their bounds are arguments.
--
-- Not modelled: the module tables and constants of the Python bindings, the tests, and the examples
-- but one; the code of read.c, write.c and regset.c for ia64, a build that does not compile (write.c names variables that are not
-- declared); the choice of the ABI in pink_regset_fill for 64-bit PowerPC, which configure.ac never
-- compiles; pink_write_retval for ARM and the branch of pink_read_retval for x32, which do not
-- either; the macros of vm.h and read.h.
pub mod Prelude
pub mod System
pub mod Trace
pub mod Abi
pub mod Event
pub mod Name
pub mod Word
pub mod Vm
pub mod Regset
pub mod Read
pub mod Write
pub mod Pipe
pub mod Socket
pub mod Powerpc
pub mod Aarch64
pub mod I386
pub mod Arm
pub mod Strace
pub mod Python
