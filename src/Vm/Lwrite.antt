-- ===== src/Vm/Lwrite.antt =====
-- pink_vm_lwrite of pinktrace/vm.c against the tracee's memory.
pub mod Partial
mod Tests
use mathlib.Core.Path.{fun_ext}
use pinktrace.Prelude.{
  ℕ, zero, suc, ◌+◌, ◌-◌, ◌*◌, ◌/◌, ◌%◌, ◌^◌, ◌≤◌, ◌<◌, ◌≡◌, refl, arith, ap, ap₂, sym, ◌∙◌, inl,
  inr, ◌⊎◌, min, Bool, true, false, ◌&&◌, some, List, [], ◌∷◌, ◌++◌, ◌==◌, ltb, leb, if◌then◌else◌,
  drop, pos, u32, u64, le_bytes, from_le, window,
}
use pinktrace.System.{Request, State, PtraceCall}
use pinktrace.System.Loop.{◌>>=◌}
use pinktrace.Trace.{minus_one}
use pinktrace.Trace.Status.{call_succeeds}
use pinktrace.Word.{write_word_data}
use pinktrace.Vm.{lwrite, lwrite_loop, align}
use pinktrace.Vm.Memory.{
  window_ext, window_at, window-append, take-drop-window, drop-window, le_bytes-from_le,
}

-- PTRACE_POKEDATA at a word's address stores the word there, where it is mapped, and nowhere else; it
-- fails with an errno where it is not.
pub record PokeWrites {K : Type 0} (sys : PtraceCall K) (pid : ℕ) (mem : K → ℕ → ℕ)
    (mapped : K → ℕ → Bool) : Type 0 where
  pub poked : K → ℕ → ℕ → K
  pub pokes :
      (s : State K) (a v : ℕ)
      → a % 8 ≡ 0
      → mapped s.kernel a ≡ true
      → sys Request.pokedata pid a v s ≡ (0, record s { kernel = poked s.kernel a v })
  pub same : (k : K) (a v i : ℕ) → mapped (poked k a v) i ≡ mapped k i
  pub stored : (k : K) (a v : ℕ) → window (mem (poked k a v)) a 8 ≡ le_bytes 8 v
  pub kept : (k : K) (a v i : ℕ) → (i < a) ⊎ (a + 8 ≤ i) → mem (poked k a v) i ≡ mem k i
  pub error : State K → ℕ → ℕ
  pub faults :
      (s : State K) (a v : ℕ)
      → a % 8 ≡ 0
      → mapped s.kernel a ≡ false
      → sys Request.pokedata pid a v s ≡ (minus_one, record s { errno = suc (error s a) })

-- The memory after a write at a word's address: the bytes of the source, then up to the end of the
-- last word those of `pad`.
unfoldable pub patched : (src pad mem : ℕ → ℕ) → (addr len i : ℕ) → ℕ
patched src pad mem addr len i =
    if leb addr i && ltb i (addr + len)
    then src (i - addr)
    else if leb addr i && ltb i (addr + (len + 7) / 8 * 8)
    then pad i
    else mem i

-- What one word takes from the source and from `pad`.
joined : (src pad : ℕ → ℕ) → (addr off m i : ℕ) → ℕ
joined src pad addr off m i = if ltb i (addr + m) then src (off + (i - addr)) else pad i

joined-window :
    (src pad : ℕ → ℕ) (addr off m : ℕ)
    → m ≤ 8
    → window src off m ++ drop m (window pad addr 8) ≡ window (joined src pad addr off m) addr 8
unfolding joined
joined-window src pad addr off m h =
    let eight : m + (8 - m) ≡ 8 = omega arith in
    ap₂ (λ s t. s ++ t)
      (window_ext src (joined src pad addr off m) off addr m λ j p.
        let at : addr + j - addr ≡ j = omega arith in
        let here : ltb (addr + j) (addr + m) ≡ true = ground arith in rw (here, at))
      (drop-window pad addr m 8 h
        ∙ window_ext pad (joined src pad addr off m) (addr + m) (addr + m) (8 - m)
            (λ j p. let here : ltb (addr + m + j) (addr + m) ≡ false = ground arith in rw here))
    ∙ sym (window-append (joined src pad addr off m) addr m (8 - m))
    ∙ ap (window (joined src pad addr off m) addr) eight

-- The memory after one word.
one_word :
    (src pad after mem : ℕ → ℕ) (addr off m i : ℕ)
    → 0 < m
    → m ≤ 8
    → window after addr 8 ≡ window (joined src pad addr off m) addr 8
    → ((i < addr) ⊎ (addr + 8 ≤ i) → after i ≡ mem i)
    → after i ≡ patched (λ j. src (off + j)) pad mem addr m i
unfolding patched joined
one_word src pad after mem addr off m i p q w h = ground (
  arith,
  h,
  λ (a : addr ≤ i) (b : i < addr + 8). window_at after (joined src pad addr off m) addr 8 i w a b,
)

patched-mem :
    (src pad f g : ℕ → ℕ) (addr len i : ℕ)
    → f i ≡ g i
    → patched src pad f addr len i ≡ patched src pad g addr len i
unfolding patched
patched-mem src pad f g addr len i h = rw h

-- A word and then the rest are the whole.
patched-patched :
    (src pad mem : ℕ → ℕ) (addr off len i : ℕ)
    → patched
        (λ j. src (off + min 8 len + j))
        pad
        (patched (λ j. src (off + j)) pad mem addr (min 8 len))
        (addr + 8)
        (len - min 8 len)
        i
      ≡ patched (λ j. src (off + j)) pad mem addr len i
unfolding patched
patched-patched src pad mem addr off len i = ground arith

module _ {K : Type 0} (sys : PtraceCall K) (pid : ℕ) (mem : K → ℕ → ℕ) (mapped : K → ℕ → Bool)
    (poke : PokeWrites sys pid mem mapped) (src pad : ℕ → ℕ) (src_byte : (i : ℕ) → src i < 256)
    (pad_byte : (i : ℕ) → pad i < 256) where
  joined-byte : (addr off m i : ℕ) → joined src pad addr off m i < 256
  unfolding joined
  joined-byte addr off m i = ground (arith, src_byte (off + (i - addr)), pad_byte i)

  -- One round stores the word of the source's next bytes, filled up from `pad`.
  lwrite_loop_round :
      (fuel addr off len count : ℕ) (s : State K)
      → addr % 8 ≡ 0
      → 0 < len
      → mapped s.kernel addr ≡ true
      → (k : K) × (lwrite_loop sys pid (λ a. window pad a 8) src (suc fuel) addr 0 off len count s
          ≡ lwrite_loop sys pid
              (λ a. window pad a 8)
              src
              fuel
              (u64 (addr + 8))
              0
              (off + min 8 len)
              (len - min 8 len)
              (u32 (count + min 8 len))
              (record { errno = 0; kernel = k }))
        × ((i : ℕ) → mem k i ≡ patched (λ j. src (off + j)) pad (mem s.kernel) addr (min 8 len) i)
        × ((i : ℕ) → mapped k i ≡ mapped s.kernel i)
  unfolding lwrite_loop write_word_data
  lwrite_loop_round fuel addr off len count s a p there =
      let m = min 8 len in
      let f = joined src pad addr off m in
      let v = from_le (window f addr 8) in
      let k = poke.poked s.kernel addr v in
      let going : (len == 0) ≡ false = ground arith in
      let start : align addr ≡ addr = omega arith in
      let offset : off + 0 ≡ off = omega arith in
      let room : 8 - 0 ≡ 8 = refl in
      let word : window (mem k) addr 8 ≡ window f addr 8 =
        poke.stored s.kernel addr v ∙ le_bytes-from_le f addr 8 (joined-byte addr off m) in
      (
        k,
        rw (
          lwrite_loop,
          going,
          ◌>>=◌,
          start,
          offset,
          joined-window src pad addr off m (omega arith),
          call_succeeds sys Request.pokedata pid addr v s (record { errno = 0; kernel = k }) 0
              (poke.pokes (record s { errno = 0 }) addr v a there) (inr refl),
        ),
        λ i.
            one_word src pad (mem k) (mem s.kernel) addr off m i (omega arith) (omega arith) word
              (poke.kept s.kernel addr v i),
        poke.same s.kernel addr v,
      )

  lwrite_loop-patched :
      (fuel addr off len count : ℕ) (s : State K)
      → len < fuel
      → addr % 8 ≡ 0
      → addr + len + 8 ≤ 2 ^ 64
      → count + len < 2 ^ 32
      → ((i : ℕ) → addr ≤ i → i < addr + len → mapped s.kernel i ≡ true)
      → (t : State K) × (lwrite_loop sys pid (λ a. window pad a 8) src fuel addr 0 off len count s
          ≡ some (pos (count + len), t))
        × ((i : ℕ) → mem t.kernel i ≡ patched (λ j. src (off + j)) pad (mem s.kernel) addr len i)
        × ((i : ℕ) → mapped t.kernel i ≡ mapped s.kernel i)
  lwrite_loop-patched zero addr off len count s f a top c there = absurd (omega arith)
  lwrite_loop-patched (suc fuel) addr off zero count s f a top c there =
      let e : count + 0 ≡ count = omega arith in
      (s, unfold lwrite_loop in rw e refl, λ i. unfold patched in ground arith, λ i. refl)
  lwrite_loop-patched (suc fuel) addr off (suc len) count s f a top c there =
      let m = min 8 (suc len) in
      let next : u64 (addr + 8) ≡ addr + 8 = omega arith in
      let small : u32 (count + m) ≡ count + m = omega arith in
      let total : count + m + (suc len - m) ≡ count + suc len = omega arith in
      let (k, e, g, same) =
        lwrite_loop_round fuel addr off (suc len) count s a (omega arith)
          (there addr (omega arith) (omega arith)) in
      let (t, e', g', same') =
        lwrite_loop-patched fuel (addr + 8) (off + m) (suc len - m) (count + m)
          (record { errno = 0; kernel = k }) (omega arith) (omega arith) (omega arith) (omega arith)
          (λ i p q. same i ∙ there i (omega arith) (omega arith)) in
      (
        t,
        e
            ∙ ap₂
                (λ x c.
                  lwrite_loop sys pid (λ b. window pad b 8) src fuel x 0 (off + m) (suc len - m) c
                    (record { errno = 0; kernel = k }))
                next small
            ∙ e'
            ∙ ap (λ n. some (pos n, t)) total,
        λ i.
            g' i
            ∙ patched-mem (λ j. src (off + m + j)) pad (mem k) _ (addr + 8) (suc len - m) i (g i)
            ∙ patched-patched src pad (mem s.kernel) addr off (suc len) i,
        λ i. same' i ∙ same i,
      )

  -- At an address that is a multiple of 8, where every byte of the range is mapped, pink_vm_lwrite
  -- returns the length and stores exactly the source's bytes in the range. The rest of the last word
  -- is overwritten with what the union held (`pad`), nothing else changes, and what is mapped stays so.
  -- The range is below 4 GiB, and 8 addresses or more follow it.
  pub lwrite-patched :
      (addr len : ℕ) (s : State K)
      → addr % 8 ≡ 0
      → addr + len + 8 ≤ 2 ^ 64
      → len < 2 ^ 32
      → ((i : ℕ) → addr ≤ i → i < addr + len → mapped s.kernel i ≡ true)
      → (t : State K) × (lwrite sys pid (λ a. window pad a 8) src addr len s ≡ some (pos len, t))
        × ((i : ℕ) → mem t.kernel i ≡ patched src pad (mem s.kernel) addr len i)
        × ((i : ℕ) → mapped t.kernel i ≡ mapped s.kernel i)
  unfolding lwrite
  lwrite-patched addr len s a top b there =
      let none_off : 0 + len ≡ len = omega arith in
      let (t, e, g, same) =
        lwrite_loop-patched (suc len) addr 0 len 0 s (omega arith) a top (omega arith) there in
      (
        t,
        ap (λ r. lwrite_loop sys pid (λ b. window pad b 8) src (suc len) addr r 0 len 0 s) a
            ∙ e
            ∙ ap (λ n. some (pos n, t)) none_off,
        λ i.
            g i
            ∙ ap (λ f. patched f pad (mem s.kernel) addr len i) (fun_ext λ j. ap src (omega arith)),
        same,
      )
