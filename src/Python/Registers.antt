-- ===== src/Python/Registers.antt =====
-- python/pinktrace/py-regset.c: the class ProcessRegistrySet, in a build for x86-64. An object is its
-- register set.
use pinktrace.Prelude.{ℕ, Bool, Option, none, some, if◌then◌else◌, is_neg, abs_neg}
use pinktrace.System.{M, PtraceCall}
use pinktrace.Trace.{Have}
use pinktrace.Regset.{Regset, Layout, Blocks, alloc, fill}
use pinktrace.Python.{Exception, memory_error, parse_error, Result, pink_call_true}

-- The new object. `tp_alloc` and `malloc` say whether there was memory for it and for its set; the
-- first sets MemoryError itself. The object stays allocated where there is none for the set.
pub process_registry_set_new :
    {K : Type 0} → (tp_alloc malloc : M K Bool) → M K (Option Regset × Option Exception)
process_registry_set_new tp_alloc malloc s =
    let (there, t) = tp_alloc s in
    let ((r, regset), u) = alloc malloc t in
    if there
    then (if is_neg r
        then ((none, some memory_error), record u { errno = abs_neg r })
        else ((regset, none), u))
    else ((none, some memory_error), t)

module _ {K : Type 0} (sys : PtraceCall K) (blocks : Blocks K) (l : Layout) (have : Have)
    (regs io nt_prstatus : ℕ) where
  -- The result, and the set of the object then.
  pub pinkpy_regset_fill : (self : Regset) → Option ℕ → M K (Result × Regset)
  unfolding pink_call_true
  pinkpy_regset_fill self none s = (((none, some parse_error), self), s)
  pinkpy_regset_fill self (some pid) s =
      let ((status, self'), t) = fill sys blocks l have pid regs io nt_prstatus self s in
      let (result, u) = pink_call_true (λ s. (status, t)) s in ((result, self'), u)
