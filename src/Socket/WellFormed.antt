-- ===== src/Socket/WellFormed.antt =====
-- The buffer of struct pink_sockaddr (pinktrace/socket.c), whatever the tracee and the kernel do.
use pinktrace.Prelude.{
  ℕ, zero, suc, ◌+◌, ◌≤◌, ◌≡◌, refl, arith, ap, ◌∙◌, inl, inr, Bool, true, not, Bool-cases, Option,
  none, some, List, [], ◌∷◌, ◌++◌, take, length, ◌==◌, if◌then◌else◌, ℤ, pos, is_neg, u32,
}
use pinktrace.System.{State, Calls}
use pinktrace.System.Loop.{ReturnsWith, bind-ReturnsWith, if-ReturnsWith, ret}
use pinktrace.Regset.{Layout, Regset}
use pinktrace.Read
use pinktrace.Read.{vm_data_full}
use pinktrace.Read.Total.{Any, vm_data_full-Returns, argument-Returns}
use pinktrace.Socket.{
  Sockaddr, pad_size, zeros, terminated, clamp, or_abort, value_of, read_socket_argument,
  read_address, read_socket_address,
}

-- The union holds 128 bytes, and `length` says no more than that.
pub record WellFormed (sockaddr : Sockaddr) : Type 0 where
  pub whole : length sockaddr.pad ≡ pad_size
  pub within : sockaddr.length ≤ pad_size

length-take-zeros : (n m : ℕ) (xs : List ℕ) → n ≤ m → length (take n (xs ++ zeros m)) ≡ n
length-take-zeros zero m xs h = refl
length-take-zeros (suc n) zero xs h = absurd (omega arith)
length-take-zeros (suc n) (suc m) [] h = ap suc (length-take-zeros n m [] (omega arith))
length-take-zeros (suc n) (suc m) (x ∷ xs) h = ap suc (length-take-zeros n (suc m) xs (omega arith))

length-snoc : (xs : List ℕ) (x : ℕ) → length (xs ++ x ∷ []) ≡ suc (length xs)
length-snoc [] x = refl
length-snoc (y ∷ xs) x = ap suc (length-snoc xs x)

terminated-whole : (got : List ℕ) → length (terminated got) ≡ pad_size
terminated-whole got =
    length-snoc (take 127 (got ++ zeros 128)) 0
    ∙ ap suc (length-take-zeros 127 128 got (omega arith))

clamp-within : (addrlen : ℕ) → clamp addrlen ≤ pad_size
clamp-within addrlen = ground arith

zero_within : 0 ≤ pad_size
zero_within = omega arith

-- The address in a result.
abbrev pub HoldsAddress : ℤ × Option ℕ × Sockaddr → Type 0
HoldsAddress (r, fd, sockaddr) = WellFormed sockaddr

module _ {K : Type 0} (sys : Calls K) (l : Layout) (pid : ℕ) (r : Regset)
    (decode_socketcall : Bool) where
  or_abort-argument : (i : ℕ) (s : State K) → ReturnsWith Any (or_abort (Read.argument l r i) s)
  or_abort-argument i s = let (x, e) = argument-Returns l r i in (x, s, rw e refl, tt)

  read_socket_argument-Returns :
      (i : ℕ) (s : State K)
      → ReturnsWith Any (read_socket_argument sys l pid r decode_socketcall true i s)
  unfolding read_socket_argument
  read_socket_argument-Returns i s =
      if-ReturnsWith Any (not decode_socketcall) (or_abort (Read.argument l r i)) _ s
        (or_abort-argument i s)
        (bind-ReturnsWith Any Any (or_abort (Read.argument l r 1)) _ s (or_abort-argument 1 s)
          (λ a t p.
            if-ReturnsWith Any (is_neg a.0) _ _ t (_, _, refl, tt)
              (bind-ReturnsWith Any Any (vm_data_full sys r.abi pid _ _) _ t
                (vm_data_full-Returns sys r.abi pid _ _ t) (λ b u q. (_, _, refl, tt)))))

  read_address-WellFormed :
      (fd : Option ℕ) (addr addrlen : ℕ) (sockaddr : Sockaddr) (s : State K)
      → WellFormed sockaddr
      → addrlen ≤ pad_size
      → ReturnsWith HoldsAddress
          (read_address sys l pid r decode_socketcall fd addr addrlen sockaddr s)
  unfolding read_address
  read_address-WellFormed fd addr addrlen sockaddr s before short =
      bind-ReturnsWith Any HoldsAddress (vm_data_full sys r.abi pid addr addrlen) _ s
        (vm_data_full-Returns sys r.abi pid addr addrlen s)
        (λ a t p. elim (Bool-cases (is_neg a.0)) [
          | inl failed ↦ rw failed (
            _,
            _,
            refl,
            record { whole = length-take-zeros 128 128 a.1 (omega arith); within = before.within },
          )
          | inr good ↦ rw good (_, _, refl, record { whole = terminated-whole a.1; within = short })
        ])

  -- Whatever the tracee holds and the kernel does, pink_read_socket_address returns, and the address
  -- is well-formed then if it was before: its buffer has 128 bytes, and its length is at most 128.
  -- This goes for every index, with and without `decode_socketcall` and a place for the descriptor.
  pub read_socket_address-WellFormed :
      (wanted : Bool) (arg_index : ℕ) (sockaddr : Sockaddr) (s : State K)
      → WellFormed sockaddr
      → ReturnsWith HoldsAddress
          (read_socket_address sys l pid r decode_socketcall wanted arg_index sockaddr s)
  unfolding read_socket_address
  read_socket_address-WellFormed wanted arg_index sockaddr s before =
      bind-ReturnsWith Any HoldsAddress
        (if wanted
          then read_socket_argument sys l pid r decode_socketcall true 0
          else ret (pos 0, none))
        _ s
        (if-ReturnsWith Any wanted (read_socket_argument sys l pid r decode_socketcall true 0)
          (ret (pos 0, none)) s (read_socket_argument-Returns 0 s) ((pos 0, none), s, refl, tt))
        (λ a t p. elim (Bool-cases (is_neg a.0)) [
          | inl failed ↦ rw failed (_, _, refl, before)
          | inr good ↦ rw good (
              bind-ReturnsWith Any HoldsAddress
                (read_socket_argument sys l pid r decode_socketcall true arg_index) _ t
                (read_socket_argument-Returns arg_index t)
                (λ b u q. elim (Bool-cases (is_neg b.0)) [
                  | inl failed ↦ rw failed (_, _, refl, before)
                  | inr good ↦ rw good (
                      bind-ReturnsWith Any HoldsAddress
                        (read_socket_argument sys l pid r decode_socketcall true
                          (u32 (arg_index + 1)))
                        _ u (read_socket_argument-Returns (u32 (arg_index + 1)) u)
                        (λ c v w. elim (Bool-cases (is_neg c.0)) [
                          | inl failed ↦ rw failed (_, _, refl, before)
                          | inr good ↦ rw good (elim (Bool-cases (value_of b.1 == 0)) [
                            | inl null ↦
                                rw null (
                                  _,
                                  _,
                                  refl,
                                  record { whole = before.whole; within = zero_within },
                                )
                            | inr given ↦ rw given (
                                read_address-WellFormed
                                  (if wanted then some (u32 (value_of a.1)) else none)
                                  (value_of b.1) (clamp (value_of c.1)) sockaddr v before
                                  (clamp-within (value_of c.1)))
                          ])
                        ]))
                ]))
        ])
