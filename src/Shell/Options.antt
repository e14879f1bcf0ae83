-- ===== src/Shell/Options.antt =====
-- The options of the context in src/js.cpp: `js_options`, `MapContextOptionNameToFlag`, `Options` and
-- `Version`. A context's options are a set of flags in a number; what a flag's number is, and how
-- `JS_ToggleOptions` combines them, is the engine's.
use Prim.Native.String.{String}
use text.Mathlib.Text.{◌==◌ as str_eq}
pub mod Toggles
use sysjs.Host.{JsVal, Outcome, int, returned, thrown, unknown_option, void}
use sysjs.Prelude.{
  Bool, List, Option, [], bit_and, bit_or, false, if◌then◌else◌, none, some, true, ℕ, ℤ, ◌==◌, ◌∷◌,
}

-- The names of `js_options`, in its order.
abbrev pub js_options : List String
js_options = "anonfunfix" ∷ "atline" ∷ "jit" ∷ "relimit" ∷ "strict" ∷ "werror" ∷ "xml" ∷ []

-- The loop of `MapContextOptionNameToFlag`: the flag of a name of the list, or 0.
unfoldable pub flag_in : (String → ℕ) → List String → String → ℕ
flag_in flag [] name = 0
flag_in flag (k ∷ names) name =
    let later = flag_in flag names name in if str_eq name k then flag k else later

unfoldable pub map_option : (String → ℕ) → String → ℕ
unfolding flag_in
map_option flag name = flag_in flag js_options name

-- The first loop of `Options`: the flags of the names, or nothing where one is unknown.
pub collect : (String → ℕ) → List String → ℕ → Option ℕ
unfolding map_option
collect flag [] optset = some optset
collect flag (name ∷ args) optset =
    let later = collect flag args (bit_or optset (map_option flag name)) in
    if map_option flag name == 0 then none else later

-- The second loop: the pieces that `JS_sprintf_append` puts together for the options that are set.
pub pieces : (String → ℕ) → ℕ → List String → Bool → List String
pieces flag optset [] some_before = []
pieces flag optset (k ∷ names) some_before =
    let later = pieces flag optset names true in
    let skipped = pieces flag optset names some_before in
    if bit_and (flag k) optset == 0 then skipped else (if some_before then "," else "") ∷ k ∷ later

-- The context's options after the call, and the pieces of the string returned. `toggle` is
-- `JS_ToggleOptions`, which answers the options from before.
pub options : (String → ℕ) → (ℕ → ℕ → ℕ) → List String → ℕ → Outcome (ℕ × List String)
unfolding collect pieces
options flag toggle args current = elim (collect flag args 0) [
  | none ↦ thrown unknown_option (current, [])
  | some optset ↦ returned void (toggle current optset, pieces flag current js_options false)
]

-- `Version`: the value returned, and the version after the call. An integer sets it and the version
-- from before is returned.
abbrev pub version_of : List JsVal → ℤ → JsVal × ℤ
version_of [] current = (int current, current)
version_of (int n ∷ args) current = (int current, n)
version_of (v ∷ args) current = (int current, current)
