-- ===== src/SysUtil/Guards.antt =====
-- What the static functions of src/js_sysutil.cpp accept, and what they then do.
use sysjs.Host.{
  Engine, Error, JsVal, int, invalid_argument, is_int, is_string, returned, string, thrown, usage,
}
use sysjs.Prelude.{
  Bool, List, Option, [], arith, if◌then◌else◌, length, negsuc, none, pos, refl, some, ℕ, ℤ, ◌%◌,
  ◌/◌, ◌<◌, ◌^◌, ◌∙◌, ◌∷◌, ◌≡◌, ◌≢◌,
}
use sysjs.SysUtil.{
  Method, Result, System, byte_of, call, close_fd, float_bits, m_array2float, m_close, m_getenv,
  m_getpid, m_open, m_rename, m_sleep, m_system, m_unlink, s_a2f, s_close, s_getenv, s_getpid,
  s_open, s_rename, s_sleep, s_system, s_unlink,
}

-- What a function's argument is to be, by its usage message.
pub data Kind : Type 0 where
  a_string a_number : Kind

unfoldable pub kinds : Method → List Kind
kinds m_system = a_string ∷ []
kinds m_getenv = a_string ∷ []
kinds m_getpid = []
kinds m_open = a_string ∷ a_number ∷ []
kinds m_close = a_number ∷ []
kinds m_unlink = a_string ∷ []
kinds m_rename = a_string ∷ a_string ∷ []
kinds m_sleep = a_number ∷ []
kinds m_array2float = a_number ∷ a_number ∷ a_number ∷ a_number ∷ []

unfoldable pub has_kind : Kind → JsVal → Bool
has_kind a_string v = is_string v
has_kind a_number v = is_int v

-- The error of the first check that fails: the number of arguments, then their tags.
unfoldable pub refusal : List Kind → List JsVal → Option Error
refusal [] [] = none
refusal [] (v ∷ args) = some usage
refusal (k ∷ ks) [] = some usage
refusal (k ∷ ks) (v ∷ args) = elim (refusal ks args) [
  | some usage ↦ some usage
  | o ↦ if has_kind k v then o else some invalid_argument
]

thrown_some : {e e' : Error} → some e' ≡ some e → ◌≡◌ {A = Result} (thrown e' []) (thrown e [])
thrown_some h = cc

absurd_none : {P : Type 0} {e : Error} → none ≡ some e → P
absurd_none h = cc

-- With the right number of arguments only a tag can be wrong.
refusal-invalid :
    (ks : List Kind) (args : List JsVal) (e : Error)
    → length ks ≡ length args
    → refusal ks args ≡ some e
    → e ≡ invalid_argument
unfolding refusal
refusal-invalid [] [] e same h = absurd_none h
refusal-invalid [] (v ∷ args) e same h = ground (arith, same)
refusal-invalid (k ∷ ks) [] e same h = ground (arith, same)
refusal-invalid (k ∷ ks) (v ∷ args) e same h =
    let ih = λ (e' : Error). refusal-invalid ks args e' (ground (arith, same)) in
    ground (arith, h, ih usage, ih e)

a2f_invalid :
    (widen : ℕ → ℕ) (v0 v1 v2 v3 : JsVal) (e : Error)
    → refusal (kinds m_array2float) (v0 ∷ v1 ∷ v2 ∷ v3 ∷ []) ≡ some e
    → e ≡ invalid_argument
    → s_a2f widen (v0 ∷ v1 ∷ v2 ∷ v3 ∷ []) ≡ thrown e []
unfolding s_a2f kinds refusal has_kind
a2f_invalid widen (int a0) (int a1) (int a2) (int a3) e h same = absurd_none h
a2f_invalid widen v0 v1 v2 v3 e h same = cc

a2f_usage :
    (widen : ℕ → ℕ) (v0 v1 v2 v3 v4 : JsVal) (args : List JsVal)
    → s_a2f widen (v0 ∷ v1 ∷ v2 ∷ v3 ∷ v4 ∷ args) ≡ thrown usage []
unfolding s_a2f
a2f_usage widen v0 v1 v2 v3 v4 args = ground arith

-- Every function but `close` refuses the arguments that its usage message does not name: the call
-- throws the error of the first check that fails, and no call of the system is made.
pub call-refusal :
    (engine : Engine) (widen : ℕ → ℕ) (sys : System) (m : Method) (args : List JsVal) (e : Error)
    → m ≢ m_close
    → refusal (kinds m) args ≡ some e
    → call engine widen sys m args ≡ thrown e []
unfolding call kinds refusal has_kind s_getpid s_system s_getenv s_open s_close s_unlink s_rename
    s_sleep s_a2f
call-refusal engine widen sys m_getpid [] e other h = absurd_none h
call-refusal engine widen sys m_getpid (v ∷ args) e other h = thrown_some h
call-refusal engine widen sys m_system [] e other h = thrown_some h
call-refusal engine widen sys m_system (v0 ∷ []) e other h = ground (arith, h)
call-refusal engine widen sys m_system (v0 ∷ v1 ∷ args) e other h = ground (arith, h)
call-refusal engine widen sys m_getenv [] e other h = thrown_some h
call-refusal engine widen sys m_getenv (v0 ∷ []) e other h = ground (arith, h)
call-refusal engine widen sys m_getenv (v0 ∷ v1 ∷ args) e other h = ground (arith, h)
call-refusal engine widen sys m_open [] e other h = thrown_some h
call-refusal engine widen sys m_open (v0 ∷ []) e other h = ground (arith, h)
call-refusal engine widen sys m_open (v0 ∷ v1 ∷ []) e other h = ground (arith, h)
call-refusal engine widen sys m_open (v0 ∷ v1 ∷ v2 ∷ args) e other h = ground (arith, h)
call-refusal engine widen sys m_close args e other h = absurd (other refl)
call-refusal engine widen sys m_unlink [] e other h = thrown_some h
call-refusal engine widen sys m_unlink (v0 ∷ []) e other h = ground (arith, h)
call-refusal engine widen sys m_unlink (v0 ∷ v1 ∷ args) e other h = ground (arith, h)
call-refusal engine widen sys m_rename [] e other h = thrown_some h
call-refusal engine widen sys m_rename (v0 ∷ []) e other h = ground (arith, h)
call-refusal engine widen sys m_rename (v0 ∷ v1 ∷ []) e other h = ground (arith, h)
call-refusal engine widen sys m_rename (v0 ∷ v1 ∷ v2 ∷ args) e other h = ground (arith, h)
call-refusal engine widen sys m_sleep [] e other h = thrown_some h
call-refusal engine widen sys m_sleep (v0 ∷ []) e other h = ground (arith, h)
call-refusal engine widen sys m_sleep (v0 ∷ v1 ∷ args) e other h = ground (arith, h)
call-refusal engine widen sys m_array2float [] e other h = thrown_some h
call-refusal engine widen sys m_array2float (v0 ∷ []) e other h = ground (arith, h)
call-refusal engine widen sys m_array2float (v0 ∷ v1 ∷ []) e other h = ground (arith, h)
call-refusal engine widen sys m_array2float (v0 ∷ v1 ∷ v2 ∷ []) e other h = ground (arith, h)
call-refusal engine widen sys m_array2float (v0 ∷ v1 ∷ v2 ∷ v3 ∷ []) e other h =
    a2f_invalid widen v0 v1 v2 v3 e h
      (refusal-invalid (kinds m_array2float) (v0 ∷ v1 ∷ v2 ∷ v3 ∷ []) e refl h)
call-refusal engine widen sys m_array2float (v0 ∷ v1 ∷ v2 ∷ v3 ∷ v4 ∷ args) e other h =
    a2f_usage widen v0 v1 v2 v3 v4 args ∙ thrown_some h

-- `close` refuses every integer, so no script can close a descriptor that `open` gave it; a
-- string is accepted, and the descriptor closed is read from the string's bits.
s_close-int :
    (engine : Engine) (sys : System) (n : ℤ) (s : List ℕ)
    → (s_close engine sys (int n ∷ []) ≡ thrown invalid_argument [])
      × (s_close engine sys (string s ∷ [])
          ≡ returned
              (int (sys.number (close_fd (engine.raw_bits (string s)))))
              (close_fd (engine.raw_bits (string s)) ∷ []))
unfolding s_close
s_close-int engine sys n s = (refl, refl)

byte_of-lt : (a : ℤ) → byte_of a < 256
unfolding byte_of
byte_of-lt (pos n) = omega arith
byte_of-lt (negsuc n) = omega arith

-- The bits of a float hold the low bytes of the four numbers, the first highest, and nothing else.
pub float_bits_lem :
    (a0 a1 a2 a3 : ℤ)
    → let f = float_bits a0 a1 a2 a3 in
      (f < 2 ^ 32)
      × (f / 2 ^ 24 ≡ byte_of a0)
      × (f / 2 ^ 16 % 256 ≡ byte_of a1)
      × (f / 2 ^ 8 % 256 ≡ byte_of a2)
      × (f % 256 ≡ byte_of a3)
unfolding float_bits
float_bits_lem a0 a1 a2 a3 =
    omega (arith, byte_of-lt a0, byte_of-lt a1, byte_of-lt a2, byte_of-lt a3)
