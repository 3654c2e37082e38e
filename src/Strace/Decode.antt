-- ===== src/Strace/Decode.antt =====
-- The functions of examples/pink-simple-strace.c that print a system call and its result.
pub mod Open
pub mod Socketcall
use Prim.Native.String.{String}
use Prim.Native.Nat.{bit_and}
use text.Mathlib.Text.{◌==◌ as str_eq}
use pinktrace.Prelude.{
  ℕ, zero, suc, ◌+◌, ◌-◌, ◌%◌, ◌^◌, Bool, true, false, not, ◌||◌, Option, none, some, List, [], ◌∷◌,
  ◌++◌, ◌==◌, if◌then◌else◌, ltb, drop, length, ℤ, pos, neg, negsuc, is_neg, is_zero, abs_neg,
  pos_part, u32, Bool-cases, inl, inr, refl, ◌≡◌, signed32, signed64,
}
use pinktrace.System.{State, M, set_errno}
use pinktrace.System.Loop.{D, ◌>>=◌, ◌>>◌, ret, lift, out_of_fuel}
use pinktrace.Regset
use pinktrace.Regset.{Regset}
use pinktrace.Read
use pinktrace.Read.{vm_data_nul, string_array}
use pinktrace.Name.{name_socket_subcall, name_syscall}
use pinktrace.Socket.{Sockaddr, read_socket_address}
use pinktrace.Strace.{
  Arg, literal, string, number, word, strerror, inet_ntop, Print, printf, fputc, Headers, Host,
  Process,
}

-- `none` for an abort(), and where C gives the program no meaning.
abbrev pub meaningless : {K A : Type 0} → D K A
meaningless s = none

-- A value that is stored where a call succeeds; 0 stands for one that is not.
abbrev pub value_of : Option ℕ → ℕ
value_of none = 0
value_of (some v) = v

-- The prints of print_open_flags, `found` being what the switch finds.
creat_flag : Headers → (flags : ℕ) → (found : Bool) → List Print
creat_flag h flags found =
    if bit_and flags h.o_creat == 0
    then (if found then [] else printf "%#x" (word (u32 flags) ∷ []) ∷ [])
    else printf "%s | O_CREAT" (literal (if found then "" else "0") ∷ []) ∷ []

pub print_open_flags : Headers → (flags : ℕ) → List Print
unfolding creat_flag
print_open_flags h flags =
    let aflags = flags % 4 in
    if aflags == h.o_rdonly
    then printf "O_RDONLY" [] ∷ creat_flag h flags true
    else if aflags == h.o_wronly
    then printf "O_WRONLY" [] ∷ creat_flag h flags true
    else if aflags == h.o_rdwr
    then printf "O_RDWR" [] ∷ creat_flag h flags true
    else creat_flag h flags false

module _ {K : Type 0} (host : Host K) where
  -- errno = -r; perror(what);
  unfoldable pub complain : (r : ℤ) → (what : String) → M K (Unit {0})
  complain r what s = host.perror what (set_errno (abs_neg r) s).1

  pub print_all : List Print → D K (Unit {0})
  print_all [] = ret tt
  print_all (p ∷ ps) = do lift (host.out p); print_all ps

  -- What follows pink_regset_fill; pink_read_abi returns 0.
  updated : Process → ℤ × Regset → M K Process
  updated proc (r, regs) s =
      if is_neg r
      then (record proc { regs = regs }, (complain r "pink_regset_fill" s).1)
      else (record proc { regs = regs; abi = Read.abi regs }, s)

  unfoldable pub process_update : Process → M K Process
  unfolding updated
  process_update proc s =
      let (filled, t) =
        Regset.fill host.sys.ptrace host.blocks host.layout host.have proc.pid host.union host.io
          host.nt_prstatus proc.regs s in
      updated proc filled t

  -- It leaves `insyscall` alone.
  pub process_update-insyscall :
      (proc : Process) (s : State K) → (process_update proc s).0.insyscall ≡ proc.insyscall
  unfolding process_update updated
  process_update-insyscall proc s =
      let f =
        Regset.fill host.sys.ptrace host.blocks host.layout host.have proc.pid host.union host.io
          host.nt_prstatus proc.regs s in
      elim (Bool-cases (is_neg f.0.0)) [ inl e ↦ rw e refl | inr e ↦ rw e refl ]

  pub print_ret : Process → D K (Unit {0})
  print_ret proc = elim (Read.retval host.nerrnos host.layout proc.regs) [
    | none ↦ meaningless
    | some (value, err) ↦
        if not (err == 0)
        then lift (
            host.out (
              printf "= %d (%s)" (
                number (signed32 (u32 (2 ^ 32 - err)))
                ∷ strerror (signed32 (u32 (2 ^ 32 - err)))
                ∷ [])))
        else lift (host.out (printf "= %ld" (number (signed64 value) ∷ [])))
  ]

  module _ (proc : Process) where
    pub argument : (arg_index : ℕ) → D K (ℤ × Option ℕ)
    argument arg_index s = elim (Read.argument host.layout proc.regs arg_index) [
      | none ↦ none
      | some x ↦ some (x, s)
    ]

    -- A string at an address; the rest of the buffer keeps its bytes.
    read_string : (addr : ℕ) → (buf : List ℕ) → D K (ℤ × List ℕ)
    read_string addr buf = do
      (r, got) ← vm_data_nul host.sys proc.regs.abi proc.pid addr host.headers.path_max
      ret (r, got ++ drop (length got) buf)

    -- The second test has no `< 0`, and `r` is the length of the string there.
    pub decode_open : D K (Unit {0})
    unfolding argument read_string
    decode_open = do
      (r, addr) ← argument 0
      if is_neg r then lift (complain r "pink_read_argument") else (do
        (r', buf) ← read_string (value_of addr) host.junk
        if is_neg r' then lift (complain r' "pink_read_string") else (do
          (r'', flags) ← argument 1
          if is_zero r''
              then (do
                lift (set_errno (u32 (2 ^ 32 - u32 (pos_part r'))))
                lift (host.perror "pink_read_argument"))
              else print_all (
                  printf "open(\"%s\", " (string buf ∷ [])
                    ∷ print_open_flags host.headers (value_of flags)
                  ++ fputc ")" ∷ [])))

    -- The loop over the array, from the member at `i` + 1 on.
    execve_loop : (fuel arg i : ℕ) → (sep : String) → (buf : List ℕ) → D K (Unit {0})
    execve_loop zero arg i sep buf = out_of_fuel
    execve_loop (suc fuel) arg i sep buf = do
      (r, got, nil) ←
          string_array host.sys proc.regs.abi proc.pid host.junk arg (u32 (i + 1))
            host.headers.path_max
      let buf' = got ++ drop (length got) buf
      if is_neg r then lift (complain r "pink_read_string_array") else (do
        print_all (
            printf "%s" (literal sep ∷ [])
            ∷ fputc "\""
            ∷ printf "%s" (string buf' ∷ [])
            ∷ fputc "\""
            ∷ [])
        elim nil [
          | some true ↦ lift (host.out (printf "], envp[])" []))
          | other ↦ execve_loop fuel arg (u32 (i + 1)) ", " buf'
        ])

    pub decode_execve : (fuel : ℕ) → D K (Unit {0})
    unfolding argument read_string execve_loop
    decode_execve fuel = do
      (r, _) ← argument 0
      if is_neg r then lift (complain r "pink_read_argument") else (do
        (r', buf) ← read_string 0 host.junk
        if is_neg r' then lift (complain r' "pink_read_string") else (do
          (r'', arg) ← argument 1
          if is_neg r'' then lift (complain r'' "pink_read_argument") else (do
            lift (host.out (printf "execve(\"%s\", [" (string buf ∷ [])))
            execve_loop fuel (value_of arg) 0 "" buf)))
