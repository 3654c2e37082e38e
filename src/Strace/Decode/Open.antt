-- ===== src/Strace/Decode/Open.antt =====
-- What decode_open of examples/pink-simple-strace.c prints.
use pinktrace.Prelude.{◌≡◌, refl, arith, Option-cases, Bool-cases, inl, inr, is_neg}
use pinktrace.System.{State, M}
use pinktrace.System.Loop.{◌>>=◌}
use pinktrace.Read.Registers.{argument-stored}
use pinktrace.Strace.{Host, Process, Print}
use pinktrace.Strace.Decode.{decode_open, complain, argument, read_string}

module _ {K : Type 0} (host : Host K) (proc : Process) where
  -- decode_open writes nothing to the standard output: whatever the tracee, it does the same with
  -- any two functions in the place of printf(3) and fputc(3).
  pub decode_open-out :
      (f g : Print → M K (Unit {0})) (s : State K)
      → decode_open (record host { out = f }) proc s ≡ decode_open (record host { out = g }) proc s
  unfolding decode_open argument complain
  decode_open-out f g s =
      let (v, first) = argument-stored host.layout proc.regs 0 (omega arith) in
      let (w, second) = argument-stored host.layout proc.regs 1 (omega arith) in
      elim (Option-cases (read_string host proc v host.junk s)) [
        | inl lost ↦ rw (decode_open, ◌>>=◌, argument, first, lost) refl
        | inr (((r, buf), u), read) ↦ elim (Bool-cases (is_neg r)) [
          | inl failed ↦ rw (decode_open, ◌>>=◌, argument, first, read, failed) refl
          | inr fine ↦ rw (decode_open, ◌>>=◌, argument, first, read, fine, second) refl
        ]
      ]
