-- ===== src/Name.antt =====
-- pinktrace/name.c: names of events, socket subcalls, address families, system calls, errors and
-- signals, and the look-up of a number by its name. NULL is `none`; a table is a list, and a table
-- of `struct xlat` ends where its NULL entry stands.
pub mod Tables
pub mod Xlat
pub mod Shuffle
pub mod Entries
pub mod Unique
pub mod X86_64
pub mod Builds
pub mod Architectures
mod Tests
use mathlib.Core.Option
use Prim.Native.String.{String}
use text.Mathlib.Text.{◌==◌ as str_eq}
use pinktrace.Prelude.{
  ℕ, zero, suc, ◌+◌, ◌-◌, ◌^◌, ◌≡◌, Bool, true, false, ◌&&◌, ◌||◌, Option, none, some, List, [],
  ◌∷◌, ◌==◌, if◌then◌else◌, ltb, leb, length, get_elem?, get_or, ℤ, pos, negsuc, u64,
}
use pinktrace.Event
use Tables.Families.{family_names}
use Tables.Errno.{errnoent}
use Tables.Signal.{signalent}
use Tables.X86_64.{sysent_x86_64}
use Tables.I386.{sysent_i386}
use Tables.X32.{sysent_x32}

-- struct xlat; every value of the tables is at least 0.
abbrev pub Xlat : Type 0
Xlat = String × ℕ

pub events : List Xlat
unfolding Event.number
events =
    ("FORK", Event.number Event.fork)
    ∷ ("VFORK", Event.number Event.vfork)
    ∷ ("CLONE", Event.number Event.clone)
    ∷ ("EXEC", Event.number Event.exec)
    ∷ ("VFORK_DONE", Event.number Event.vfork_done)
    ∷ ("EXIT", Event.number Event.exit)
    ∷ ("SECCOMP", Event.number Event.seccomp)
    ∷ ("STOP", Event.number Event.stop)
    ∷ []

-- enum pink_socket_subcall counts from 1, SOCKET, which the table leaves out.
pub socket_subcalls : List Xlat
socket_subcalls =
    ("bind", 2)
    ∷ ("connect", 3)
    ∷ ("listen", 4)
    ∷ ("accept", 5)
    ∷ ("getsockname", 6)
    ∷ ("getpeername", 7)
    ∷ ("socketpair", 8)
    ∷ ("send", 9)
    ∷ ("recv", 10)
    ∷ ("sendto", 11)
    ∷ ("recvfrom", 12)
    ∷ ("shutdown", 13)
    ∷ ("setsockopt", 14)
    ∷ ("getsockopt", 15)
    ∷ ("sendmsg", 16)
    ∷ ("recvmsg", 17)
    ∷ ("accept4", 18)
    ∷ []

-- The entries under #ifdef: `af` gives the AF_... constants that sys/socket.h defines.
defined : (String → Option ℕ) → List String → List Xlat
defined af [] = []
defined af (s ∷ ss) = elim (af s) [ none ↦ defined af ss | some v ↦ (s, v) ∷ defined af ss ]

pub addrfams : (String → Option ℕ) → List Xlat
unfolding defined family_names
addrfams af = defined af family_names

pub xname : List Xlat → ℤ → Option String
xname [] v = none
xname ((s, n) ∷ t) (negsuc v) = xname t (negsuc v)
xname ((s, n) ∷ t) (pos v) = if n == v then some s else xname t (pos v)

xlookup_in : List Xlat → String → ℤ
xlookup_in [] str = negsuc 0
xlookup_in ((s, n) ∷ t) str = if str_eq str s then pos n else xlookup_in t str

-- !str || *str == '\0'
pub is_empty : Option String → Bool
is_empty none = true
is_empty (some s) = str_eq s ""

pub xlookup : List Xlat → Option String → ℤ
unfolding is_empty xlookup_in
xlookup t str = if is_empty str then negsuc 0 else xlookup_in t (get_or "" str)

pub name_event : ℤ → Option String
unfolding xname events
name_event event = xname events event

pub lookup_event : Option String → ℤ
unfolding xlookup events
lookup_event name = xlookup events name

pub name_socket_family : (String → Option ℕ) → ℤ → Option String
unfolding xname addrfams
name_socket_family af family = xname (addrfams af) family

pub lookup_socket_family : (String → Option ℕ) → Option String → ℤ
unfolding xlookup addrfams
lookup_socket_family af name = xlookup (addrfams af) name

pub name_socket_subcall : ℤ → Option String
unfolding xname socket_subcalls
name_socket_subcall subcall = xname socket_subcalls subcall

pub lookup_socket_subcall : Option String → ℤ
unfolding xlookup socket_subcalls
lookup_socket_subcall name = xlookup socket_subcalls name

-- shuffle_scno for ARM_FIRST_SHUFFLED_SYSCALL `first` and ARM_LAST_SPECIAL_SYSCALL `last`.
pub shuffle_scno : (first last scno : ℕ) → ℕ
shuffle_scno first last scno =
    if ltb scno first
    then scno
    else if scno == first
    then 0x000ffff0
    else if scno == 0x000ffff0
    then first
    else if leb 0x000f0000 scno && leb scno (0x000f0000 + last)
    then scno - 0x000f0000 + (first + 1)
    else if leb scno (first + 1 + last)
    then scno + 0x000f0000 - (first + 1)
    else scno

-- How the build maps numbers to places in the table: SYSCALL_OFFSET, shuffle_scno, or neither.
pub data Numbering : Type 0 where
  plain : Numbering
  offset : ℕ → Numbering
  shuffled : (first last : ℕ) → Numbering

-- The tables of a build, one per ABI.
pub record Build : Type 0 where
  pub sysent_vec : List (List (Option String))
  pub errnoent_vec : List (List (Option String))
  pub signalent_vec : List (List (Option String))
  pub numbering : Numbering

-- A 64-bit pattern for `long scno`.
unfoldable pub scno_to_place : Numbering → ℕ → ℕ
scno_to_place plain scno = scno
scno_to_place (offset o) scno = u64 (scno + 2 ^ 64 - o)
scno_to_place (shuffled first last) scno = shuffle_scno first last scno

pub place_to_scno : Numbering → ℕ → ℕ
place_to_scno plain scno = scno
place_to_scno (offset o) scno = scno + o
place_to_scno (shuffled first last) scno = shuffle_scno first last scno

-- abi < 0 || abi >= PINK_ABIS_SUPPORTED is `none`.
pub table_of : List (List (Option String)) → ℤ → Option (List (Option String))
table_of vec (negsuc abi) = none
table_of vec (pos abi) = get_elem? vec abi

-- The entry at a number: NULL below 0, beyond the table and in a gap.
entry : List (Option String) → ℤ → Option String
entry t (negsuc n) = none
entry t (pos n) = get_or none (get_elem? t n)

-- The lookup loop from place `n` on.
scan : List (Option String) → String → ℕ → Option ℕ
scan [] name n = none
scan (none ∷ t) name n = scan t name (suc n)
scan (some s ∷ t) name n = if str_eq s name then some n else scan t name (suc n)

pub find : List (List (Option String)) → Option String → ℤ → Option ℕ
unfolding is_empty scan table_of
find vec name abi =
    if is_empty name
    then none
    else elim (table_of vec abi) [ none ↦ none | some t ↦ scan t (get_or "" name) 0 ]

unfoldable pub named : List (List (Option String)) → ℤ → ℤ → Option String
unfolding table_of entry
named vec n abi = elim (table_of vec abi) [ none ↦ none | some t ↦ entry t n ]

-- The value of a `long` result: the place's number, or -1.
found : Option ℕ → ℤ
found none = negsuc 0
found (some n) = pos n

unfoldable pub name_syscall : Build → (scno : ℕ) → (abi : ℤ) → Option String
name_syscall b scno abi =
    let place = scno_to_place b.numbering scno in
    named b.sysent_vec (if ltb place (2 ^ 63) then pos place else negsuc (2 ^ 64 - 1 - place)) abi

pub lookup_syscall : Build → Option String → (abi : ℤ) → ℤ
lookup_syscall b name abi =
    found (Option.map (place_to_scno b.numbering) (find b.sysent_vec name abi))

pub name_errno : Build → (err_no abi : ℤ) → Option String
name_errno b err_no abi = named b.errnoent_vec err_no abi

pub lookup_errno : Build → Option String → (abi : ℤ) → ℤ
lookup_errno b name abi = found (find b.errnoent_vec name abi)

pub name_signal : Build → (sig abi : ℤ) → Option String
name_signal b sig abi = named b.signalent_vec sig abi

pub lookup_signal : Build → Option String → (abi : ℤ) → ℤ
lookup_signal b name abi = found (find b.signalent_vec name abi)

-- The build for x86-64, with the ABIs x86-64, i386 and x32.
unfoldable pub x86_64 : Build
unfolding sysent_x86_64 sysent_i386 sysent_x32 errnoent signalent
x86_64 = record {
  sysent_vec = sysent_x86_64 ∷ sysent_i386 ∷ sysent_x32 ∷ [];
  errnoent_vec = errnoent ∷ errnoent ∷ errnoent ∷ [];
  signalent_vec = signalent ∷ signalent ∷ signalent ∷ [];
  numbering = plain;
}
