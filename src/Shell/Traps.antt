-- ===== src/Shell/Traps.antt =====
-- The traps of src/js.cpp: which script and which place in it the arguments of `trap`, `untrap`,
-- `line2pc` and `pc2line` name. Scripts are numbers, and a place is an offset into the code.
use mathlib.Core.Option
use mathlib.Core.Option
use sysjs.Prelude.{
  Bool, List, Option, [], false, if◌then◌else◌, leb, ltb, negsuc, none, not, pos, some, suc, true,
  zero, ℕ, ℤ, ◌-◌, ◌==◌, ◌^◌, ◌∷◌,
}

-- What is asked of an argument: whether it is a function, a script or a generator, and the script that it
-- has, if any.
pub data TrapValue : Type 0 where
  function_object script_object generator_object : Option ℕ → TrapValue
  other_value : ℕ → TrapValue

-- What the engine makes of values, sets, and finds; no line is 0.
pub record TrapEngine : Type 0 where
  pub calling_script : ℕ
  pub to_int32 : TrapValue → Option ℤ
  pub to_text : TrapValue → Option (List ℕ)
  pub code_length : ℕ → ℕ
  pub sets_trap : ℕ → ℤ → Bool
  pub first_line : ℕ → ℕ
  pub line_to_pc : ℕ → ℕ → Option ℕ
  pub pc_to_line : ℕ → ℤ → ℕ

-- `JS_ValueToFunction` fails for what is no function, and a native function has no script.
pub value_to_script : TrapValue → Option ℕ
value_to_script (function_object s) = s
value_to_script (script_object s) = s
value_to_script (generator_object s) = s
value_to_script (other_value v) = none

-- Only a function and a script are taken for the first of two arguments.
pub names_script : TrapValue → Bool
names_script (function_object s) = true
names_script (script_object s) = true
names_script (generator_object s) = false
names_script (other_value v) = false

pub place_in : TrapEngine → ℕ → List TrapValue → Option (ℕ × ℤ)
place_in engine s [] = some (s, pos 0)
place_in engine s (v ∷ args) = Option.map (λ i. (s, i)) (engine.to_int32 v)

pub get_trap_args : TrapEngine → List TrapValue → Option (ℕ × ℤ)
unfolding place_in value_to_script names_script
get_trap_args engine [] = some (engine.calling_script, pos 0)
get_trap_args engine (v ∷ args) =
    if names_script v
    then elim (value_to_script v) [ none ↦ none | some s ↦ place_in engine s args ]
    else place_in engine engine.calling_script (v ∷ args)

-- How the functions end: with a trap set or cleared, with a number, with a failure, or by an
-- address outside the code of the script, which is undefined.
pub data TrapEnd : Type 0 where
  trap_set : ℕ → ℤ → List ℕ → TrapEnd
  trap_cleared : ℕ → ℤ → TrapEnd
  place_found : ℕ → TrapEnd
  trap_usage trap_failed : TrapEnd
  outside_code : TrapEnd

-- The arguments before the last one, and the last one.
pub before_last : TrapValue → List TrapValue → List TrapValue
before_last v [] = []
before_last v (w ∷ args) = v ∷ before_last w args

pub last_value : TrapValue → List TrapValue → TrapValue
last_value v [] = v
last_value v (w ∷ args) = last_value w args

-- Whether `script->code + i` is an opcode of the script, or at least an address that may be formed.
abbrev pub is_opcode : TrapEngine → ℕ → ℤ → Bool
is_opcode engine s (pos n) = ltb n (engine.code_length s)
is_opcode engine s (negsuc n) = false

abbrev pub is_address : TrapEngine → ℕ → ℤ → Bool
is_address engine s (pos n) = leb n (engine.code_length s)
is_address engine s (negsuc n) = false

abbrev pub set_trap : TrapEngine → List ℕ → Option (ℕ × ℤ) → TrapEnd
set_trap engine text none = trap_failed
set_trap engine text (some (s, i)) =
    if not (is_opcode engine s i)
    then outside_code
    else if engine.sets_trap s i
    then trap_set s i text
    else trap_failed

-- The last argument is the text that is run, and is made a string before the others are read.
abbrev pub trap : TrapEngine → List TrapValue → TrapEnd
unfolding before_last last_value get_trap_args
trap engine [] = trap_usage
trap engine (v ∷ args) = elim (engine.to_text (last_value v args)) [
  | none ↦ trap_failed
  | some text ↦ set_trap engine text (get_trap_args engine (before_last v args))
]

abbrev pub clear_trap : TrapEngine → Option (ℕ × ℤ) → TrapEnd
clear_trap engine none = trap_failed
clear_trap engine (some (s, i)) = if is_address engine s i then trap_cleared s i else outside_code

abbrev pub untrap : TrapEngine → List TrapValue → TrapEnd
unfolding get_trap_args
untrap engine args = clear_trap engine (get_trap_args engine args)

-- `(i == 0) ? script->lineno : (uintN)i`, for an `i` of 32 bits.
abbrev pub wanted_line : TrapEngine → ℕ → ℤ → ℕ
wanted_line engine s (pos zero) = engine.first_line s
wanted_line engine s (pos (suc n)) = suc n
wanted_line engine s (negsuc n) = 2 ^ 32 - 1 - n

abbrev pub found_pc : Option ℕ → TrapEnd
found_pc none = trap_failed
found_pc (some pc) = place_found pc

abbrev pub line_at : TrapEngine → Option (ℕ × ℤ) → TrapEnd
line_at engine none = trap_failed
line_at engine (some (s, i)) = found_pc (engine.line_to_pc s (wanted_line engine s i))

abbrev pub line_to_place : TrapEngine → List TrapValue → TrapEnd
unfolding get_trap_args
line_to_place engine [] = trap_usage
line_to_place engine (v ∷ args) = line_at engine (get_trap_args engine (v ∷ args))

abbrev pub line_of : TrapEngine → Option (ℕ × ℤ) → TrapEnd
line_of engine none = trap_failed
line_of engine (some (s, i)) =
    let lineno = engine.pc_to_line s i in if lineno == 0 then trap_failed else place_found lineno

abbrev pub place_to_line : TrapEngine → List TrapValue → TrapEnd
unfolding get_trap_args
place_to_line engine args = line_of engine (get_trap_args engine args)
