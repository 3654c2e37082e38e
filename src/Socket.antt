-- ===== src/Socket.antt =====
-- pinktrace/socket.c in a build for x86-64.
pub mod Decode
pub mod WellFormed
mod Tests
use pinktrace.Prelude.{
  ℕ, zero, suc, ◌-◌, not, ◌+◌, ◌*◌, ◌^◌, ◌%◌, Bool, true, false, ◌||◌, Option, none, some, List, [],
  ◌∷◌, ◌++◌, ◌==◌, if◌then◌else◌, ltb, take, ℤ, pos, negsuc, neg, is_neg, u32, u64, from_le,
}
use pinktrace.System.{State, M, Calls, einval}
use pinktrace.System.Loop.{D, ◌>>=◌, ◌>>◌, ret, lift}
use pinktrace.Abi.{Arch, wordsize}
use pinktrace.Regset.{Layout, Regset}
use pinktrace.Read
use pinktrace.Read.{vm_data_full}

-- struct pink_sockaddr: the union `u` is its 128 bytes `pad`.
pub record Sockaddr : Type 0 where
  pub family : ℤ
  pub length : ℕ
  pub pad : List ℕ

abbrev pub pad_size : ℕ
pad_size = 128

abbrev pub zeros : ℕ → List ℕ
zeros zero = []
zeros (suc n) = 0 ∷ zeros n

-- pad[sizeof(pad) - 1] = '\0' behind the bytes that were read into zeros.
abbrev pub terminated : List ℕ → List ℕ
terminated got = take (pad_size - 1) (got ++ zeros pad_size) ++ 0 ∷ []

-- addrlen < 2 || addrlen > sizeof(sockaddr->u)
abbrev pub clamp : ℕ → ℕ
clamp addrlen = if ltb addrlen 2 || ltb pad_size addrlen then pad_size else addrlen

-- `none` for an abort().
abbrev or_abort : {K A : Type 0} → Option A → D K A
or_abort none s = none
or_abort (some a) s = some (a, s)

-- A value that is stored where a call succeeds; 0 stands for one that is not.
abbrev value_of : Option ℕ → ℕ
value_of none = 0
value_of (some v) = v

module _ {K : Type 0} (sys : Calls K) (l : Layout) (pid : ℕ) (r : Regset)
    (decode_socketcall : Bool) where
  -- The result, and what is stored through `argval`, where that is not NULL (`given`).
  pub read_socket_argument : (given : Bool) → (arg_index : ℕ) → D K (ℤ × Option ℕ)
  read_socket_argument false arg_index = ret (neg einval, none)
  read_socket_argument true arg_index =
      if not decode_socketcall
      then or_abort (Read.argument l r arg_index)
      else (let wsize = wordsize Arch.x86_64 r.abi in
          do
            (status, addr) ← or_abort (Read.argument l r 1)
            if is_neg status
                then ret (status, none)
                else (let u_addr = u64 (value_of addr + arg_index * wsize) in
                    do
                      (status', got) ←
                          vm_data_full sys r.abi pid u_addr (if wsize == 4 then 4 else 8)
                      ret (
                          if is_neg status' then (status', none) else (pos 0, some (from_le got)))))

  -- The end of pink_read_socket_address, with the clamped `addrlen`.
  read_address : Option ℕ → (addr addrlen : ℕ) → Sockaddr → D K (ℤ × Option ℕ × Sockaddr)
  read_address fd addr addrlen sockaddr = do
    (r3, got) ← vm_data_full sys r.abi pid addr addrlen
    ret (
        if is_neg r3
        then (r3, fd, record sockaddr { pad = take pad_size (got ++ zeros pad_size) })
        else (
          pos 0,
          fd,
          record {
            family = pos (from_le (take 2 (terminated got)));
            length = addrlen;
            pad = terminated got;
          },
        ))

  -- The result, what is stored through `fd`, where that is not NULL (`wanted`), and the address.
  pub read_socket_address :
      (wanted : Bool) → (arg_index : ℕ) → Sockaddr → D K (ℤ × Option ℕ × Sockaddr)
  unfolding read_socket_argument read_address
  read_socket_address wanted arg_index sockaddr = do
    (r0, myfd) ← (if wanted then read_socket_argument true 0 else ret (pos 0, none))
    if is_neg r0
        then ret (r0, none, sockaddr)
        else (let fd = (if wanted then some (u32 (value_of myfd)) else none) in
            do
              (r1, addr) ← read_socket_argument true arg_index
              if is_neg r1 then ret (r1, fd, sockaddr) else (do
                (r2, addrlen) ← read_socket_argument true (u32 (arg_index + 1))
                if is_neg r2
                    then ret (r2, fd, sockaddr)
                    else if value_of addr == 0
                    then ret (pos 0, fd, record sockaddr { family = negsuc 0; length = 0 })
                    else read_address fd (value_of addr) (clamp (value_of addrlen)) sockaddr))
