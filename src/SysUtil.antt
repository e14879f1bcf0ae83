-- ===== src/SysUtil.antt =====
-- The class SysUtil of src/js_sysutil.cpp: its static functions, each of which checks its arguments
-- and makes one call of the system. `fail_if_not` reports an error and returns JS_FALSE.
pub mod Guards
pub mod Constants
use sysjs.Host.{
  Engine, JsVal, Outcome, double, fault, int, invalid_argument, jsval_to_int, null, returned,
  stopped, string, system_error, thrown, usage, void,
}
use sysjs.Prelude.{
  Bool, List, Option, [], false, if◌then◌else◌, leb, ltb, negsuc, none, pos, set, some, suc, true,
  ℕ, ℤ, ◌%◌, ◌*◌, ◌+◌, ◌-◌, ◌^◌, ◌∷◌,
}

-- The calls of the system, with what they are given.
pub data SysCall : Type 0 where
  getenv system unlink : List ℕ → SysCall
  getpid : SysCall
  open_file : List ℕ → ℤ → ℕ → SysCall
  close_fd : ℤ → SysCall
  rename : List ℕ → List ℕ → SysCall
  usleep : ℕ → SysCall

-- What the system answers: for getenv(3) the value, for the others a number, or an error number
-- with -1 for those calls whose failure is looked at.
pub record System : Type 0 where
  pub environment : List ℕ → Option (List ℕ)
  pub number : SysCall → ℤ
  pub errno : SysCall → Option ℕ

-- The calls made.
abbrev pub Result : Type 0
Result = Outcome (List SysCall)

-- A call whose answer is returned as it is.
abbrev pub answer : System → SysCall → Result
answer sys call = returned (int (sys.number call)) (call ∷ [])

-- A call whose -1 is reported.
abbrev pub checked : System → SysCall → Result
checked sys call = elim (sys.errno call) [
  | none ↦ answer sys call
  | some errno ↦ thrown (system_error errno) (call ∷ [])
]

abbrev optional_string : Option (List ℕ) → JsVal
optional_string none = null
optional_string (some s) = string s

pub s_getenv : System → List JsVal → Result
s_getenv sys args = elim args [
  | string var ∷ [] ↦ returned (optional_string (sys.environment var)) (getenv var ∷ [])
  | v ∷ [] ↦ thrown invalid_argument []
  | _ ↦ thrown usage []
]

pub s_getpid : System → List JsVal → Result
s_getpid sys args = elim args [ [] ↦ answer sys getpid | _ ↦ thrown usage [] ]

pub s_system : System → List JsVal → Result
s_system sys args = elim args [
  | string cmd ∷ [] ↦ answer sys (system cmd)
  | v ∷ [] ↦ thrown invalid_argument []
  | _ ↦ thrown usage []
]

-- The mode 0644 of a file that open(2) creates.
abbrev file_mode : ℕ
file_mode = 0o644

pub s_open : System → List JsVal → Result
s_open sys args = elim args [
  | string file ∷ int flags ∷ [] ↦ checked sys (open_file file flags file_mode)
  | v ∷ w ∷ [] ↦ thrown invalid_argument []
  | _ ↦ thrown usage []
]

-- The check wants a string, and the descriptor is then read from its bits.
pub s_close : Engine → System → List JsVal → Result
s_close engine sys args = elim args [
  | string s ∷ [] ↦ answer sys (close_fd (jsval_to_int engine (string s)))
  | v ∷ [] ↦ thrown invalid_argument []
  | _ ↦ thrown usage []
]

pub s_unlink : System → List JsVal → Result
s_unlink sys args = elim args [
  | string file ∷ [] ↦ checked sys (unlink file)
  | v ∷ [] ↦ thrown invalid_argument []
  | _ ↦ thrown usage []
]

pub s_rename : System → List JsVal → Result
s_rename sys args = elim args [
  | string from ∷ string to ∷ [] ↦ checked sys (rename from to)
  | v ∷ w ∷ [] ↦ thrown invalid_argument []
  | _ ↦ thrown usage []
]

-- `ms*1000` as a 32-bit `int`, which must not overflow, and as the `useconds_t` that it becomes.
pub microseconds : ℤ → Option ℕ
microseconds (pos n) = if ltb (n * 1000) (2 ^ 31) then some (n * 1000) else none
microseconds (negsuc n) = if leb (suc n * 1000) (2 ^ 31) then some (2 ^ 32 - suc n * 1000) else none

abbrev sleep_for : System → Option ℕ → Result
sleep_for sys none = fault
sleep_for sys (some us) = answer sys (usleep us)

pub s_sleep : System → List JsVal → Result
unfolding microseconds
s_sleep sys args = elim args [
  | int ms ∷ [] ↦ sleep_for sys (microseconds ms)
  | v ∷ [] ↦ thrown invalid_argument []
  | _ ↦ thrown usage []
]

-- `(unsigned char)(a)`
pub byte_of : ℤ → ℕ
byte_of (pos n) = n % 256
byte_of (negsuc n) = 255 - n % 256

-- The bits of a float, the first number its highest byte.
pub float_bits : ℤ → ℤ → ℤ → ℤ → ℕ
unfolding byte_of
float_bits a0 a1 a2 a3 = byte_of a0 * 2 ^ 24 + byte_of a1 * 2 ^ 16 + byte_of a2 * 2 ^ 8 + byte_of a3

-- `widen` is the machine's conversion of a float to a double, by their bits.
pub s_a2f : (ℕ → ℕ) → List JsVal → Result
unfolding float_bits
s_a2f widen args = elim args [
  | int a0 ∷ int a1 ∷ int a2 ∷ int a3 ∷ [] ↦ returned (double (widen (float_bits a0 a1 a2 a3))) []
  | v0 ∷ v1 ∷ v2 ∷ v3 ∷ [] ↦ thrown invalid_argument []
  | _ ↦ thrown usage []
]

-- The functions of `_SysUtilStaticFunctionSpec`.
pub data Method : Type 0 where
  m_system m_getenv m_getpid m_open m_close m_unlink m_rename m_sleep m_array2float : Method

pub call : Engine → (ℕ → ℕ) → System → Method → List JsVal → Result
unfolding s_system s_getenv s_getpid s_open s_close s_unlink s_rename s_sleep s_a2f
call engine widen sys m_system = s_system sys
call engine widen sys m_getenv = s_getenv sys
call engine widen sys m_getpid = s_getpid sys
call engine widen sys m_open = s_open sys
call engine widen sys m_close = s_close engine sys
call engine widen sys m_unlink = s_unlink sys
call engine widen sys m_rename = s_rename sys
call engine widen sys m_sleep = s_sleep sys
call engine widen sys m_array2float = s_a2f widen

-- `SysUtilConstructor`: whether the object then has private data; `set` is what `JS_SetPrivate`
-- answers. The class is registered with SpiderMonkey, which calls `SysUtilDestructor` at the end.
pub construct : Bool → List JsVal → Outcome Bool
construct set [] = if set then returned void true else stopped false
construct set (v ∷ args) = returned void false

-- `SysUtilDestructor`: whether data is deleted.
abbrev pub destruct : Bool → Bool
destruct has_data = has_data
