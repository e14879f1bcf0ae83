-- ===== src/Shell/Environment.antt =====
-- The object `environment` of src/js.cpp, `env_class`: the variables of the environment as properties.
-- An entry of the environment and its parts are bytes.
pub mod Variables
use mathlib.Core.Option
use mathlib.Core.Option
use sysjs.Prelude.{
  Bool, List, Option, [], false, if◌then◌else◌, map, none, some, true, ℕ, ◌==◌, ◌∷◌,
}

-- Where the first `=` stands in an entry: the name before it and the value behind it. The byte is made a
-- NUL for the time of the definition and put back.
unfoldable pub split_entry : List ℕ → Option (List ℕ × List ℕ)
split_entry [] = none
split_entry (b ∷ bs) =
    let rest = split_entry bs in
    if b == 61 then some ([], bs) else Option.map (λ p. (b ∷ p.0, p.1)) rest

-- The properties that were defined, the newest first, and whether all were.
pub define_entries :
    (List ℕ → List ℕ → Bool)
    → List (List ℕ)
    → List (List ℕ × List ℕ)
    → Bool × List (List ℕ × List ℕ)
unfolding split_entry
define_entries makes [] props = (true, props)
define_entries makes (entry ∷ entries) props = elim (split_entry entry) [
  | none ↦ define_entries makes entries props
  | some (name, value) ↦
      let rest = define_entries makes entries ((name, value) ∷ props) in
      if makes name value then rest else (false, props)
]

-- What env_enumerate leaves: whether it succeeds, `reflected`, and the properties.
pub record Environment : Type 0 where
  pub reflected : Bool
  pub properties : List (List ℕ × List ℕ)

pub env_enumerate : (List ℕ → List ℕ → Bool) → List (List ℕ) → Environment → Bool × Environment
unfolding define_entries
env_enumerate makes entries e =
    let (ok, props) = define_entries makes entries e.properties in
    if e.reflected then (true, e) else (ok, record { reflected = ok; properties = props })

-- The property that env_resolve defines, and whether it succeeds, where `finds_variable` is what getenv(3)
-- answers at the time of the call; a name that is not made a string is `none`.
pub env_resolve :
    (List ℕ → List ℕ → Bool)
    → (List ℕ → Option (List ℕ))
    → Bool
    → Option (List ℕ)
    → Bool × Option (List ℕ × List ℕ)
env_resolve makes finds_variable true id = (true, none)
env_resolve makes finds_variable false none = (false, none)
env_resolve makes finds_variable false (some name) = elim (finds_variable name) [
  | none ↦ (true, none)
  | some value ↦ if makes name value then (true, some (name, value)) else (false, none)
]

-- A variable is set by setenv(3), where both texts are made; the property is then the value as a string.
abbrev pub env_set_property :
    (List ℕ → List ℕ → Bool) → Option (List ℕ) → Option (List ℕ) → Bool × Option (List ℕ × List ℕ)
env_set_property sets_variable none value = (false, none)
env_set_property sets_variable (some name) none = (false, none)
env_set_property sets_variable (some name) (some value) =
    if sets_variable name value then (true, some (name, value)) else (false, none)
