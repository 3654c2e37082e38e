-- ===== src/Strace.antt =====
-- examples/pink-simple-strace.c, a tracer on top of the library, in a build for x86-64. Here are the
-- calls that it makes of the C library, and what it keeps of the process that it traces.
pub mod Decode
pub mod Loop
pub mod Main
use Prim.Native.String.{String}
use pinktrace.Prelude.{ℕ, Bool, List, Option, ℤ}
use pinktrace.System.{M, Calls}
use pinktrace.Trace.{Have, KillCall}
use pinktrace.Regset.{Regset, Layout, Blocks}
use pinktrace.Name.{Build}

-- The arguments of printf(3): `string` is the memory of a string, up to its zero byte; `strerror` is
-- strerror(n), and `inet_ntop` the text that inet_ntop(3) makes of an address.
pub data Arg : Type 0 where
  literal : String → Arg
  string : List ℕ → Arg
  number : ℤ → Arg
  word : ℕ → Arg
  strerror : ℤ → Arg
  inet_ntop : (af : ℕ) → List ℕ → Arg

-- What is written to the standard output.
pub data Print : Type 0 where
  printf : String → List Arg → Print
  fputc : String → Print

-- The numbers and structures of the C library's headers. A member of a socket address is a function
-- of its bytes; `af_netlink` is `none` where PINK_HAVE_NETLINK is 0.
pub record Headers : Type 0 where
  pub o_rdonly : ℕ
  pub o_wronly : ℕ
  pub o_rdwr : ℕ
  pub o_creat : ℕ
  pub path_max : ℕ
  pub af_unix : ℕ
  pub af_inet : ℕ
  pub af_inet6 : ℕ
  pub af_netlink : Option ℕ
  pub sun_path : List ℕ → List ℕ
  pub sin_port : List ℕ → ℕ
  pub sin_addr : List ℕ → List ℕ
  pub sin6_port : List ℕ → ℕ
  pub sin6_addr : List ℕ → List ℕ
  pub nl_pid : List ℕ → ℕ
  pub nl_groups : List ℕ → ℕ
  pub wifexited : ℕ → Bool
  pub wexitstatus : ℕ → ℕ
  pub wifsignaled : ℕ → Bool
  pub wtermsig : ℕ → ℕ

-- The system and the C library. `io`, `union` and `nt_prstatus` are the addresses and the note type
-- that pink_regset_fill uses; `junk` is what memory holds that was never written. waitpid(2) gives
-- its result and the status; fork(2) its result.
pub record Host (K : Type 0) : Type 0 where
  pub sys : Calls K
  pub have : Have
  pub blocks : Blocks K
  pub layout : Layout
  pub io : ℕ
  pub union : ℕ
  pub nt_prstatus : ℕ
  pub build : Build
  pub nerrnos : List ℕ
  pub headers : Headers
  pub junk : List ℕ
  pub out : Print → M K (Unit {0})
  pub perror : String → M K (Unit {0})
  pub kill : KillCall → M K ℤ
  pub waitpid : (pid : ℕ) → M K (ℤ × ℕ)

-- struct process, with the register set behind its pointer.
pub record Process : Type 0 where
  pub pid : ℕ
  pub abi : ℕ
  pub insyscall : Bool
  pub regs : Regset
