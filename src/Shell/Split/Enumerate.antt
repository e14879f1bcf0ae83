-- ===== src/Shell/Split/Enumerate.antt =====
-- The enumeration of the properties of a split global object of src/js.cpp.
use sysjs.Prelude.{Bool, Option, false, if◌then◌else◌, none, some, true, ℕ}
use sysjs.Shell.Split.{ComplexObject}

-- The object whose properties are enumerated, for JSENUMERATE_INIT.
pub split_enumerated : ComplexObject → ℕ → ℕ
split_enumerated c obj =
    if c.is_inner then obj else elim c.inner_object [ none ↦ obj | some inner ↦ inner ]

pub data EnumerateOp : Type 0 where
  enumerate_init enumerate_next enumerate_destroy : EnumerateOp

-- What the engine answers to an enumeration: whether an iterator is made for an object, and what
-- JS_NextProperty brings, which fails with `none` and is at its end with `some none`.
pub record Iterating : Type 0 where
  pub makes_iterator : ℕ → Bool
  pub next_property : ℕ → Option (Option ℕ)

-- How an enumeration hook ends: whether it succeeds, with the object whose iterator `*statep` has, and
-- with `*idp`.
pub record EnumerateEnd : Type 0 where
  pub enumerated : Bool
  pub iterated : Option ℕ
  pub found_id : Option ℕ

abbrev pub next_end : Option ℕ → Option (Option ℕ) → EnumerateEnd
next_end state none = record { enumerated = false; iterated = state; found_id = none }
next_end state (some none) = record { enumerated = true; iterated = none; found_id = none }
next_end state (some (some k)) = record { enumerated = true; iterated = state; found_id = some k }

-- JSENUMERATE_NEXT follows an INIT that succeeded, so that `*statep` is an iterator.
abbrev pub split_enumerate : Iterating → ComplexObject → ℕ → Option ℕ → EnumerateOp → EnumerateEnd
unfolding split_enumerated
split_enumerate iterating c obj state enumerate_init =
    let o = split_enumerated c obj in
    if iterating.makes_iterator o
    then record { enumerated = true; iterated = some o; found_id = some 0 }
    else record { enumerated = false; iterated = state; found_id = none }
split_enumerate iterating c obj none enumerate_next = record {
  enumerated = true;
  iterated = none;
  found_id = none;
}
split_enumerate iterating c obj (some o) enumerate_next =
    next_end (some o) (iterating.next_property o)
split_enumerate iterating c obj state enumerate_destroy = record {
  enumerated = true;
  iterated = none;
  found_id = none;
}
