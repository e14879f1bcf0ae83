-- ===== src/Shell/Environment/Variables.antt =====
-- What the properties of `environment` (src/js.cpp) have to do with the environment.
use sysjs.Prelude.{
  Bool, List, Option, [], false, if◌then◌else◌, none, some, true, ℕ, ◌&&◌, ◌==◌, ◌∷◌, ◌≡◌,
}
use sysjs.Shell.Environment.{split_entry}

pub same_name : List ℕ → List ℕ → Bool
same_name [] [] = true
same_name (x ∷ xs) (y ∷ ys) = (x == y) && same_name xs ys
same_name _ _ = false

-- The value of the first entry that has a name.
unfoldable pub first_value : List (List ℕ) → List ℕ → Option (List ℕ)
unfolding split_entry same_name
first_value [] name = none
first_value (entry ∷ entries) name =
    let rest = first_value entries name in
    elim (split_entry entry) [
      | none ↦ rest
      | some (n, value) ↦ if same_name n name then some value else rest
    ]

-- The value of the newest property of a name.
pub property_of : List (List ℕ × List ℕ) → List ℕ → Option (List ℕ)
property_of [] name = none
property_of ((n, value) ∷ props) name =
    let rest = property_of props name in if same_name n name then some value else rest

pub or_else : Option (List ℕ) → Option (List ℕ) → Option (List ℕ)
or_else none o = o
or_else (some v) o = some v

-- No two entries have one name.
unfoldable pub Distinct : List (List ℕ) → Type 0
Distinct [] = Unit {0}
Distinct (entry ∷ entries) =
    ((n : List ℕ) (value : List ℕ) (name : List ℕ)
      → split_entry entry ≡ some (n, value)
      → same_name n name ≡ true
      → first_value entries name ≡ none)
    × Distinct entries

-- The property that a name and a value give.
abbrev pub with_name : List ℕ → Option (List ℕ) → Option (List ℕ × List ℕ)
with_name name none = none
with_name name (some value) = some (name, value)
