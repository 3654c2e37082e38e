-- ===== src/Socket/Decode.antt =====
-- pinktrace/socket.c: the arguments of socketcall(2) in a 32-bit process.
use pinktrace.Prelude.{
  ℕ, ◌+◌, ◌*◌, ◌^◌, ◌≤◌, ◌<◌, ◌≡◌, suc, refl, arith, ap, ◌∙◌, Bool, [], zero, take, true, false,
  some, List, pos, window, from_le, sext32, u64, u32, ◌==◌,
}
use pinktrace.System.{State, Calls}
use pinktrace.System.Loop.{◌>>=◌}
use pinktrace.Abi.{abi_i386, wordsize}
use pinktrace.Regset.{Layout, ecx, reg32}
use pinktrace.Read.Registers.{in_abi, argument-reg32}
use pinktrace.Read.{argument_reg32, vm_data_full}
use pinktrace.Read.Data.{ReadvReads, vm_data_full-window}
use pinktrace.Vm.Memory.{PeekReads, setup_addr-i386}
use pinktrace.Socket.{
  Sockaddr, read_socket_argument, read_socket_address, read_address, terminated, clamp, or_abort,
}

family-window :
    (f : ℕ → ℕ) (addr addrlen : ℕ)
    → 2 ≤ addrlen
    → from_le (take 2 (terminated (window f addr addrlen))) ≡ f addr + 256 * f (suc addr)
family-window f addr zero h = absurd (omega arith)
family-window f addr (suc zero) h = absurd (omega arith)
family-window f addr (suc (suc n)) h = omega arith

module _ {K : Type 0} (sys : Calls K) (pid : ℕ) (mem : K → ℕ → ℕ) (mapped : K → ℕ → Bool)
    (peek : PeekReads sys.ptrace pid mem mapped) (readv : ReadvReads sys.readv pid mem mapped)
    (l : Layout) (words : ℕ → ℕ) (len : ℕ) where
  -- The call of pink_read_vm_data_full decides.
  decoded :
      (i a e : ℕ) (bytes : List ℕ) (s : State K)
      → u64 (sext32 (reg32 words ecx) + i * 4) ≡ a
      → vm_data_full sys abi_i386 pid a 4 s ≡ some ((pos 0, bytes), record s { errno = e })
      → read_socket_argument sys l pid (in_abi words len abi_i386) true true i s
        ≡ some ((pos 0, some (from_le bytes)), record s { errno = e })
  unfolding read_socket_argument wordsize
  decoded i a e bytes s place r =
      let second =
        argument-reg32 [] 0 l words len 1 ecx (omega arith) (unfold argument_reg32 in refl) in
      rw (read_socket_argument, ◌>>=◌, or_abort, second, place, r) refl

  -- In a 32-bit process, where the second argument of socketcall(2) points to words that are mapped
  -- and lie below 2 GiB: with `decode_socketcall`, pink_read_socket_argument returns 0 and stores
  -- the word of the tracee's memory at the index asked for; the kernel is as it was.
  pub read_socket_argument-window :
      (i : ℕ) (s : State K)
      → let a = reg32 words ecx + 4 * i in
        a + 12 ≤ 2 ^ 31
        → ((j : ℕ) → a ≤ j → j < a + 4 → mapped s.kernel j ≡ true)
        → (e : ℕ) × (read_socket_argument sys l pid (in_abi words len abi_i386) true true i s
            ≡ some ((pos 0, some (from_le (window (mem s.kernel) a 4))), record s { errno = e }))
  read_socket_argument-window i s top h =
      let a = reg32 words ecx + 4 * i in
      let place : u64 (sext32 (reg32 words ecx) + i * 4) ≡ a = ground arith in
      let (e, r) =
        vm_data_full-window sys abi_i386 pid mem mapped peek readv a 4 s
          (setup_addr-i386 a (omega arith)) (omega arith) (omega arith) h in
      (e, decoded i a e _ s place r)

  composed :
      (i fd addr addrlen e0 e1 e2 e3 : ℕ) (bytes : List ℕ) (sockaddr : Sockaddr) (s : State K)
      → 0 < addr
      → 2 ≤ addrlen
      → addrlen ≤ 128
      → let arg = read_socket_argument sys l pid (in_abi words len abi_i386) true true in
        arg 0 s ≡ some ((pos 0, some fd), record s { errno = e0 })
        → arg i (record s { errno = e0 }) ≡ some ((pos 0, some addr), record s { errno = e1 })
        → arg (u32 (i + 1)) (record s { errno = e1 })
          ≡ some ((pos 0, some addrlen), record s { errno = e2 })
        → vm_data_full sys abi_i386 pid addr addrlen (record s { errno = e2 })
          ≡ some ((pos 0, bytes), record s { errno = e3 })
        → read_socket_address sys l pid (in_abi words len abi_i386) true true i sockaddr s
          ≡ some (
            (
              pos 0,
              some (u32 fd),
              record {
                family = pos (from_le (take 2 (terminated bytes)));
                length = addrlen;
                pad = terminated bytes;
              },
            ),
            record s { errno = e3 },
          )
  unfolding read_socket_address read_address
  composed i fd addr addrlen e0 e1 e2 e3 bytes sockaddr s p two most r0 r1 r2 r3 =
      let given : (addr == 0) ≡ false = ground arith in
      let kept : clamp addrlen ≡ addrlen = ground arith in
      rw (read_socket_address, ◌>>=◌, r0, r1, r2, given, read_address, kept, r3)
        (ap
          (λ n. some (
            (
              pos 0,
              some (u32 fd),
              record {
                family = pos (from_le (take 2 (terminated bytes)));
                length = n;
                pad = terminated bytes;
              },
            ),
            record s { errno = e3 },
          ))
          kept)

  -- In a 32-bit process, where the second argument of socketcall(2) points to words that are mapped
  -- and lie below 2 GiB, and those at `i` and `i + 1` are the address and the length of a mapped
  -- range of 2 to 128 bytes below 4 GiB: with `decode_socketcall`, pink_read_socket_address
  -- returns 0 and stores the first word as the descriptor, the first two bytes of the range as the
  -- family, that length, and the bytes of the range with zeros behind them, the last of the 128 bytes
  -- zero in any case; the kernel is as it was.
  pub read_socket_address-window :
      (i addr addrlen : ℕ) (sockaddr : Sockaddr) (s : State K)
      → let a = reg32 words ecx in
        a + 4 * i + 16 ≤ 2 ^ 31
        → ((j : ℕ) → a ≤ j → j < a + 4 * i + 8 → mapped s.kernel j ≡ true)
        → from_le (window (mem s.kernel) (a + 4 * i) 4) ≡ addr
        → from_le (window (mem s.kernel) (a + 4 * (i + 1)) 4) ≡ addrlen
        → 0 < addr
        → 2 ≤ addrlen
        → addrlen ≤ 128
        → addr + addrlen ≤ 2 ^ 32
        → ((j : ℕ) → addr ≤ j → j < addr + addrlen → mapped s.kernel j ≡ true)
        → (e : ℕ) × (read_socket_address sys l pid
              (in_abi words len abi_i386)
              true
              true
              i
              sockaddr
              s
            ≡ some (
              (
                pos 0,
                some (u32 (from_le (window (mem s.kernel) a 4))),
                record {
                  family = pos (mem s.kernel addr + 256 * mem s.kernel (suc addr));
                  length = addrlen;
                  pad = terminated (window (mem s.kernel) addr addrlen);
                },
              ),
              record s { errno = e },
            ))
  read_socket_address-window i addr addrlen sockaddr s top h ha hl p two most fits g =
      let a = reg32 words ecx in
      let zero_place : u64 (sext32 a + 0 * 4) ≡ a = ground arith in
      let (e0, r0) =
        vm_data_full-window sys abi_i386 pid mem mapped peek readv a 4 s
          (setup_addr-i386 a (omega arith)) (omega arith) (omega arith)
          (λ j x y. h j (omega arith) (omega arith)) in
      let s0 : State K = record s { errno = e0 } in
      let (e1, r1) =
        read_socket_argument-window i s0 (omega arith) (λ j x y. h j (omega arith) (omega arith)) in
      let s1 : State K = record s { errno = e1 } in
      let (e2, r2) =
        read_socket_argument-window (i + 1) s1 (omega arith)
          (λ j x y. h j (omega arith) (omega arith)) in
      let s2 : State K = record s { errno = e2 } in
      let (e3, r3) =
        vm_data_full-window sys abi_i386 pid mem mapped peek readv addr addrlen s2
          (setup_addr-i386 addr (omega arith)) (omega arith) (omega arith) g in
      let small : u32 (i + 1) ≡ i + 1 = omega arith in
      (
        e3,
        composed i (from_le (window (mem s.kernel) a 4)) addr addrlen e0 e1 e2 e3 _ sockaddr s p two
              most (decoded 0 a e0 _ s zero_place r0) (r1 ∙ ap (λ v. some ((pos 0, some v), s1)) ha)
              (ap (λ j. read_socket_argument sys l pid (in_abi words len abi_i386) true true j s1)
                  small
                ∙ r2
                ∙ ap (λ v. some ((pos 0, some v), s2)) hl)
              r3
            ∙ ap
                (λ v. some (
                  (
                    pos 0,
                    some (u32 (from_le (window (mem s.kernel) a 4))),
                    record {
                      family = pos v;
                      length = addrlen;
                      pad = terminated (window (mem s.kernel) addr addrlen);
                    },
                  ),
                  record s { errno = e3 },
                ))
                (family-window (mem s.kernel) addr addrlen two),
      )
