-- ===== src/Host.antt =====
-- What the native classes of src/js_socket.cpp, src/js_sysutil.cpp and src/jsdso.cpp share: the
-- values of the JavaScript engine, the ways in which a native function ends, and the record of the
-- calls that it makes of the engine and of the operating system.
use sysjs.Prelude.{Bool, List, Option, [], false, none, pos, some, suc, true, ℕ, ℤ, ◌-◌, ◌∷◌, ◌≡◌}

-- A `jsval`. Strings are the bytes that `JS_GetStringBytes` shows, a double its bit pattern, and an
-- object a reference.
pub data JsVal : Type 0 where
  void null : JsVal
  bool : Bool → JsVal
  int : ℤ → JsVal
  string : List ℕ → JsVal
  double : ℕ → JsVal
  array : List ℕ → JsVal
  object : ℕ → JsVal

-- What the engine answers about a value: `JS_GetStringBytes (JS_ValueToString v)`,
-- `JS_ValueToInt32`, and the number that `JSVAL_TO_INT` reads from the bits of a value that is no
-- integer.
pub record Engine : Type 0 where
  pub to_bytes : JsVal → List ℕ
  pub to_int32 : JsVal → ℤ
  pub raw_bits : JsVal → ℤ

-- `JSVAL_TO_INT`, which does not look at the tag.
abbrev pub jsval_to_int : Engine → JsVal → ℤ
jsval_to_int engine (int n) = n
jsval_to_int engine v = engine.raw_bits v

abbrev pub is_int : JsVal → Bool
is_int (int n) = true
is_int v = false

abbrev pub is_string : JsVal → Bool
is_string (string s) = true
is_string v = false

-- `JSVAL_IS_OBJECT`: null is one.
abbrev pub is_object : JsVal → Bool
is_object null = true
is_object (array ns) = true
is_object (object o) = true
is_object v = false

-- The messages of `JS_ReportError`, with the number that they carry.
pub data Error : Type 0 where
  socket_closed usage no_address no_private not_a_socket not_an_object : Error
  callback_failed buffer_too_small excessive : Error
  illegal_trailer wrong_count : ℕ → Error
  system_error short_write : ℕ → Error
  out_of_range unused no_free_slot cannot_load no_watchdog_thread no_load_symbol
        load_returned_error :
      Error
  unload_returned_error invalid_argument unknown_option out_of_memory : Error

-- How a native function ends: JS_TRUE with `*rval`, JS_FALSE after `JS_ReportError`, JS_FALSE
-- with nothing reported, JS_FALSE because there is no private data, undefined behaviour (a read
-- or write outside a block, a signed overflow, a use of what was not set), or not at all, because
-- the call of the system that it waits for does not return.
pub data Outcome {ℓ} (A : Type ℓ) : Type ℓ where
  returned : JsVal → A → Outcome A
  thrown : Error → A → Outcome A
  stopped : A → Outcome A
  refused : Option Error → Outcome A
  fault : Outcome A
  blocked : Outcome A

module _ {ℓ} {A : Type ℓ} where
  -- The value that a script gets.
  abbrev pub value_of : Outcome A → Option JsVal
  value_of (returned v a) = some v
  value_of o = none

  -- What holds of the state that a call leaves, where it returns; undefined behaviour is excluded.
  abbrev pub Ensures {κ} : (JsVal → A → Type κ) → (Error → A → Type κ) → Outcome A → Type κ
  Ensures P Q (returned v a) = P v a
  Ensures P Q (thrown e a) = Q e a
  Ensures P Q fault = ⊥ × Unit
  Ensures P Q o = Unit

  -- The call returns, with this value and a state for which `P` holds.
  abbrev pub Returns {κ} : JsVal → (A → Type κ) → Outcome A → Type κ
  Returns v P (returned v' a) = (v' ≡ v) × P a
  Returns v P (thrown e a) = ⊥ × Unit
  Returns v P (stopped a) = ⊥ × Unit
  Returns v P (refused e) = ⊥ × Unit
  Returns v P fault = ⊥ × Unit
  Returns v P blocked = ⊥ × Unit

  pub Returns-mono {κ} :
      {P Q : A → Type κ} (v : JsVal) (o : Outcome A)
      → ((a : A) → P a → Q a)
      → Returns v P o
      → Returns v Q o
  Returns-mono v (returned v' a) f h = (h.0, f a h.1)
  Returns-mono v (thrown e a) f h = h
  Returns-mono v (stopped a) f h = h
  Returns-mono v (refused e) f h = h
  Returns-mono v fault f h = h
  Returns-mono v blocked f h = h

-- The calls that a native function makes, where their order or their balance matters.
pub data Call : Type 0 where
  suspend_request : Call
  resume_request : ℕ → Call
  opened closed : ℤ → Call
  written : ℤ → List ℕ → Call
  timeouts : ℤ → ℤ → ℤ → ℤ → Call
  tty_configured : ℤ → ℕ → Call
  listening_on : ℤ → ℕ → Call
  reuse_address : ℤ → Call
  addresses_freed : Call

-- The requests suspended and not resumed, in a record of calls with the newest first.
abbrev pub suspended : List Call → ℕ
suspended [] = 0
suspended (suspend_request ∷ calls) = suc (suspended calls)
suspended (resume_request d ∷ calls) = suspended calls - 1
suspended (c ∷ calls) = suspended calls

-- The descriptors opened and closed again, counted; closing -1 closes nothing.
abbrev pub opens : List Call → ℕ
opens [] = 0
opens (opened fd ∷ calls) = suc (opens calls)
opens (c ∷ calls) = opens calls

abbrev pub closes : List Call → ℕ
closes [] = 0
closes (closed (pos n) ∷ calls) = suc (closes calls)
closes (c ∷ calls) = closes calls
