-- ===== src/Strace/Decode/Socketcall.antt =====
-- decode_socketcall of examples/pink-simple-strace.c.
use Prim.Native.String.{String}
use text.Mathlib.Text.{◌==◌ as str_eq}
use pinktrace.Prelude.{
  ℕ, zero, suc, ◌-◌, ◌^◌, Bool, true, false, not, ◌||◌, Option, none, some, List, [], ◌∷◌, ◌++◌,
  ◌==◌, if◌then◌else◌, ℤ, pos, negsuc, is_neg, u32, signed32,
}
use pinktrace.System.Loop.{D, ◌>>=◌, ret, lift}
use pinktrace.Name.{name_socket_subcall}
use pinktrace.Socket.{Sockaddr, read_socket_address}
use pinktrace.Strace.{literal, string, number, word, inet_ntop, Print, printf, Host, Process}
use pinktrace.Strace.Decode.{meaningless, value_of, complain, print_all, argument}

module _ {K : Type 0} (host : Host K) (proc : Process) where
  -- The switch on the family. A path that starts with a zero byte is printed behind an @.
  print_unix : (path : List ℕ) → Print
  print_unix (zero ∷ suc b ∷ path) = printf "\"@%s\"}" (string (suc b ∷ path) ∷ [])
  print_unix path = printf "\"%s\"}" (string path ∷ [])

  is_family : ℕ → ℤ → Bool
  is_family af (pos n) = n == af
  is_family af (negsuc n) = false

  is_netlink : Option ℕ → ℤ → Bool
  unfolding is_family
  is_netlink none family = false
  is_netlink (some af) family = is_family af family

  -- -1
  is_null : ℤ → Bool
  is_null (negsuc zero) = true
  is_null _ = false

  print_sockaddr : Sockaddr → List Print
  unfolding print_unix is_null is_family is_netlink
  print_sockaddr sockaddr =
      let h = host.headers in
      if is_null sockaddr.family
      then printf "NULL" [] ∷ []
      else if is_family h.af_unix sockaddr.family
      then printf "{sa_family=AF_UNIX, path=" [] ∷ print_unix (h.sun_path sockaddr.pad) ∷ []
      else if is_family h.af_inet sockaddr.family
      then printf "{sa_family=AF_INET, sin_port=htons(%d), sin_sockaddr=inet_addr(\"%s\")}"
          (word (h.sin_port sockaddr.pad) ∷ inet_ntop h.af_inet (h.sin_addr sockaddr.pad) ∷ [])
        ∷ []
      else if is_family h.af_inet6 sockaddr.family
      then printf "{sa_family=AF_INET6, sin_port=htons(%d), sin6_sockaddr=inet_addr(\"%s\")}"
          (word (h.sin6_port sockaddr.pad) ∷ inet_ntop h.af_inet6 (h.sin6_addr sockaddr.pad) ∷ [])
        ∷ []
      else if is_netlink h.af_netlink sockaddr.family
      then printf "{sa_family=AF_NETLINK, nl_pid=%d, nl_groups=%08x}"
          (word (h.nl_pid sockaddr.pad) ∷ word (h.nl_groups sockaddr.pad) ∷ [])
        ∷ []
      else printf "{sa_family=???}" [] ∷ []

  -- What follows the switch on the subcall: `subname` has no value there.
  print_call : (scname : String) → (has_subcall : Bool) → D K (Unit {0})
  unfolding print_sockaddr
  print_call scname has_subcall = do
    (r, fd, sockaddr) ←
        read_socket_address host.sys host.layout proc.pid proc.regs false true 1
          (record { family = pos 0; length = 0; pad = host.junk })
    if is_neg r
        then lift (complain host r "pink_read_socket_address")
        else if has_subcall
        then meaningless
        else print_all host (
            (printf "%s(%d, " (literal scname ∷ number (signed32 (value_of fd)) ∷ [])
              ∷ print_sockaddr sockaddr)
            ++ printf ", %u)" (word sockaddr.length ∷ []) ∷ [])

  -- The other subcalls; strcmp(3) of NULL has no meaning.
  print_subcall : Option String → D K (Unit {0})
  print_subcall none = meaningless
  print_subcall (some subname) =
      if str_eq subname "bind" || str_eq subname "connect"
      then ret tt
      else lift (host.out (printf "%s()" (literal subname ∷ [])))

  pub decode_socketcall : (scname : String) → D K (Unit {0})
  unfolding argument print_call print_subcall
  decode_socketcall scname =
      if not (str_eq scname "socketcall") then print_call scname false else (do
        (r, subcall) ← argument host proc 0
        if is_neg r
            then lift (complain host r "pink_read_socket_subcall")
            else if value_of subcall == 2 ^ 64 - 1
            then print_call scname false
            else if value_of subcall == 2 || value_of subcall == 3
            then print_call scname true
            else print_subcall (name_socket_subcall (signed32 (u32 (value_of subcall)))))
