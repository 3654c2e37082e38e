-- ===== src/Python.antt =====
-- python/pinktrace/py-pink.h: what the functions of the Python modules share. Such a function returns
-- an object, or `none` for NULL, and may set an exception. PyArg_ParseTuple is not part of the
-- program: a function takes what it makes of the tuple, `none` where it fails, with `none` for an
-- optional argument that is left out.
pub mod Trace
pub mod Name
pub mod Registers
pub mod Protocol
pub mod Names
mod Tests
use Prim.Native.String.{String}
use pinktrace.Prelude.{
  ℕ, ◌^◌, Bool, true, false, ◌||◌, Option, none, some, ◌==◌, if◌then◌else◌, leb, ℤ, negsuc, is_neg,
  abs_neg,
}
use pinktrace.System.{State, M, enosys}

pub data PyObject : Type 0 where
  py_true : PyObject
  py_int : ℤ → PyObject
  py_str : String → PyObject

-- The exception that is set; `parse_error` is that of PyArg_ParseTuple.
pub data Exception : Type 0 where
  os_error : ℕ → Exception
  value_error system_error memory_error parse_error : Exception

abbrev pub Result : Type 0
Result = Option PyObject × Option Exception

-- if (!PyArg_ParseTuple(...)) return NULL;
abbrev pub parsed : {K A : Type 0} → Option A → (A → M K Result) → M K Result
parsed none rest s = ((none, some parse_error), s)
parsed (some a) rest s = rest a s

-- PINK_CALL, and the code behind it: for -ENOSYS the macro sets an exception and goes on.
unfoldable pub pink_call : {K : Type 0} → M K ℤ → (rest : M K PyObject) → M K Result
pink_call call rest s =
    let (r, t) = call s in
    if is_neg r
    then (if abs_neg r == enosys
        then (let (v, u) = rest t in ((some v, some system_error), u))
        else ((none, some (os_error (abs_neg r))), record t { errno = abs_neg r }))
    else (let (v, u) = rest t in ((some v, none), u))

-- PINK_CALL_TRUE
unfoldable pub pink_call_true : {K : Type 0} → M K ℤ → M K Result
unfolding pink_call
pink_call_true call = pink_call call (λ s. (py_true, s))

-- signum < 0 || signum >= _NSIG, for the 32-bit pattern of an `int`.
abbrev pub is_no_signal : (nsig signum : ℕ) → Bool
is_no_signal nsig signum = leb (2 ^ 31) signum || leb nsig signum

-- PINK_CHECK_SIGNAL, and the code behind it.
unfoldable pub pink_check_signal :
    {K : Type 0} → (nsig signum : ℕ) → (rest : M K Result) → M K Result
pink_check_signal nsig signum rest s =
    if is_no_signal nsig signum then ((none, some value_error), s) else rest s

-- PINK_CHECK_NULL, and the code behind it.
unfoldable pub pink_check_null : Option String → (String → Result) → Result
pink_check_null none rest = (none, some value_error)
pink_check_null (some str) rest = rest str

-- PINK_CHECK_LOOKUP, and the code behind it.
unfoldable pub pink_check_lookup : ℤ → Result → Result
pink_check_lookup (negsuc n) rest = if n == 0 then (none, some value_error) else rest
pink_check_lookup r rest = rest
