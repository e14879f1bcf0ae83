-- ===== src/Shell/Split/Creation.antt =====
-- The creation of the split global objects of src/js.cpp.
use sysjs.Prelude.{Bool, Option, false, if◌then◌else◌, none, some, true, update, ℕ}
use sysjs.Shell.Split.{ComplexObject, Objects}

-- A new object `o`, where the memory, the object, its parent and its private data are to be had.
unfoldable pub split_create_outer : Bool → ℕ → Objects → Option Objects
split_create_outer available o objects =
    if available
    then some (
        update objects o (
          some
            (record { is_inner = false; frozen = true; inner_object = none; outer_object = none })))
    else none

-- The private data of the outer object, once it has an inner one.
abbrev pub thawed : Option ComplexObject → ℕ → Option ComplexObject
thawed none inner = none
thawed (some c) inner = some (record c { inner_object = some inner; frozen = false })

unfoldable pub split_create_inner : Bool → ℕ → ℕ → Objects → Option Objects
split_create_inner available o outer objects =
    if available
    then (let made = update objects o (
          some (record {
            is_inner = true;
            frozen = false;
            inner_object = none;
            outer_object = some outer;
          })) in
        some (update made outer (thawed (made outer) o)))
    else none

-- `split_setup`, for two new objects: the inner one, where both are created and the engine defines what
-- the global object of the shell has.
abbrev pub split_setup : Bool → Bool → Bool → ℕ → ℕ → Objects → Option (ℕ × Objects)
unfolding split_create_outer split_create_inner
split_setup outer_available inner_available defines outer inner objects =
    elim (split_create_outer outer_available outer objects) [
      | none ↦ none
      | some made ↦ elim (split_create_inner inner_available inner outer made) [
        | none ↦ none
        | some both ↦ if defines then some (inner, both) else none
      ]
    ]
