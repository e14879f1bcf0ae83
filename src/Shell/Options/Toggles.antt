-- ===== src/Shell/Options/Toggles.antt =====
-- What `Options` of src/js.cpp does to the options of a context.
use Prim.Native.String.{String}
use sysjs.Host.{Outcome, returned, thrown}
use sysjs.Prelude.{List, [], bit_or, ℕ, ◌∷◌, ◌≡◌, ◌≢◌, ◌⊎◌}
use sysjs.Shell.Options.{map_option}

-- Each name has a flag.
abbrev AllKnown : (String → ℕ) → List String → Type 0
AllKnown flag [] = Unit {0}
AllKnown flag (name ∷ args) = (map_option flag name ≢ 0) × AllKnown flag args

abbrev SomeUnknown : (String → ℕ) → List String → Type 0
SomeUnknown flag [] = ⊥ × Unit {0}
SomeUnknown flag (name ∷ args) = (map_option flag name ≡ 0) ⊎ SomeUnknown flag args

-- The options left by a call, where it returns.
abbrev pub left_by : ℕ → Outcome (ℕ × List String) → ℕ
left_by otherwise (returned v r) = r.0
left_by otherwise (thrown e r) = r.0
left_by otherwise o = otherwise

-- The flags of all the names together.
pub flags_of : (String → ℕ) → List String → ℕ → ℕ
flags_of flag [] flags = flags
flags_of flag (name ∷ args) flags = flags_of flag args (bit_or flags (map_option flag name))
