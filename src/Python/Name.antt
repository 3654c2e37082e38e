-- ===== src/Python/Name.antt =====
-- python/pinktrace/py-name.c, py-event.c and py-abi.c: the modules name, event and abi. An ABI that is
-- left out is PINK_ABI_DEFAULT, which is 0 in every build.
use Prim.Native.String.{String}
use pinktrace.Prelude.{ℕ, Option, none, some, ℤ, pos, get_or, signed32}
use pinktrace.Abi.{Arch, wordsize}
use pinktrace.Event
use pinktrace.Name
use pinktrace.Name.{Build}
use pinktrace.Python.{py_int, py_str, parse_error, Result, pink_check_null, pink_check_lookup}

-- if (!PyArg_ParseTuple(...)) return NULL; in code that has no other effects.
abbrev pub parsed_pure : {A : Type 0} → Option A → (A → Result) → Result
parsed_pure none rest = (none, some parse_error)
parsed_pure (some a) rest = rest a

-- The code of the functions that name a number, and that of those that look one up.
abbrev pub named_or_error : Option String → Result
named_or_error name = pink_check_null name (λ str. (some (py_str str), none))

abbrev pub found_or_error : ℤ → Result
found_or_error number = pink_check_lookup number (some (py_int number), none)

-- `enum pink_event` and `enum pink_socket_subcall` are 32-bit patterns.
unfoldable pub pinkpy_name_event : Option ℕ → Result
pinkpy_name_event args = parsed_pure args λ event. named_or_error (Name.name_event (signed32 event))

unfoldable pub pinkpy_lookup_event : Option String → Result
pinkpy_lookup_event args = parsed_pure args λ name. found_or_error (Name.lookup_event (some name))

unfoldable pub pinkpy_name_syscall : Build → Option (ℕ × Option ℤ) → Result
pinkpy_name_syscall b args =
    parsed_pure args λ (scno, abi). named_or_error (Name.name_syscall b scno (get_or (pos 0) abi))

unfoldable pub pinkpy_lookup_syscall : Build → Option (String × Option ℤ) → Result
pinkpy_lookup_syscall b args =
    parsed_pure args
      λ (name, abi). found_or_error (Name.lookup_syscall b (some name) (get_or (pos 0) abi))

pub pinkpy_name_socket_family : (String → Option ℕ) → Option ℤ → Result
pinkpy_name_socket_family af args =
    parsed_pure args λ family. named_or_error (Name.name_socket_family af family)

pub pinkpy_lookup_socket_family : (String → Option ℕ) → Option String → Result
pinkpy_lookup_socket_family af args =
    parsed_pure args λ name. found_or_error (Name.lookup_socket_family af (some name))

pub pinkpy_name_socket_subcall : Option ℕ → Result
pinkpy_name_socket_subcall args =
    parsed_pure args λ subcall. named_or_error (Name.name_socket_subcall (signed32 subcall))

pub pinkpy_lookup_socket_subcall : Option String → Result
pinkpy_lookup_socket_subcall args =
    parsed_pure args λ name. found_or_error (Name.lookup_socket_subcall (some name))

unfoldable pub pinkpy_name_errno : Build → Option (ℤ × Option ℤ) → Result
pinkpy_name_errno b args =
    parsed_pure args λ (err_no, abi). named_or_error (Name.name_errno b err_no (get_or (pos 0) abi))

unfoldable pub pinkpy_lookup_errno : Build → Option (String × Option ℤ) → Result
pinkpy_lookup_errno b args =
    parsed_pure args
      λ (name, abi). found_or_error (Name.lookup_errno b (some name) (get_or (pos 0) abi))

unfoldable pub pinkpy_name_signal : Build → Option (ℤ × Option ℤ) → Result
pinkpy_name_signal b args =
    parsed_pure args
      λ (signum, abi). named_or_error (Name.name_signal b signum (get_or (pos 0) abi))

unfoldable pub pinkpy_lookup_signal : Build → Option (String × Option ℤ) → Result
pinkpy_lookup_signal b args =
    parsed_pure args
      λ (name, abi). found_or_error (Name.lookup_signal b (some name) (get_or (pos 0) abi))

pub pinkpy_event_decide : Option ℕ → Result
pinkpy_event_decide args =
    parsed_pure args λ status. (some (py_int (pos (Event.decide status))), none)

pub pinkpy_abi_wordsize : Arch → Option (Option ℕ) → Result
pinkpy_abi_wordsize arch args =
    parsed_pure args λ abi. (some (py_int (pos (wordsize arch (get_or 0 abi)))), none)
