-- ===== src/Shell/Split.antt =====
-- The split global objects of src/js.cpp, `split_global`: an outer object that stays, and inner objects
-- that replace one another, to which the outer one hands what is done to its properties. Objects are
-- numbers. An object of the class has its private data from the start, since one that gets none is
-- dropped where it is created.
pub mod Creation
pub mod Enumerate
pub mod Hooks
pub mod Links
pub mod Properties
use sysjs.Prelude.{
  Bool, List, Option, [], false, if◌then◌else◌, none, some, true, update, ℕ, ℤ, ◌&&◌, ◌==◌, ◌∷◌,
}

pub record ComplexObject : Type 0 where
  pub is_inner : Bool
  pub frozen : Bool
  pub inner_object : Option ℕ
  pub outer_object : Option ℕ

-- The private data of the objects of the class; an object of another class has none here.
abbrev pub Objects : Type 0
Objects = ℕ → Option ComplexObject

-- The first of an object and its parents that is of the class.
pub split_get_private : Objects → List ℕ → Option ComplexObject
split_get_private objects [] = none
split_get_private objects (o ∷ parents) = elim (objects o) [
  | some c ↦ some c
  | none ↦ split_get_private objects parents
]

-- The object that what is done to the properties of an object is handed to.
pub split_inner_of : Option ComplexObject → Option ℕ
split_inner_of none = none
split_inner_of (some c) = if c.is_inner then none else c.inner_object

-- A property is named by a string, a number, or another value.
pub data PropertyKey : Type 0 where
  string_key : List ℕ → PropertyKey
  number_key : ℤ → PropertyKey
  other_key : PropertyKey

-- What the engine is asked to do with an object.
pub data PropertyCall : Type 0 where
  defines_property gets_property sets_property deletes_property looks_up :
      ℕ → PropertyKey → PropertyCall
  defines_is_inner resolves_standard : ℕ → PropertyKey → PropertyCall

-- Whether a key is made an id, whether a call succeeds, whether a key names a standard class, and the
-- object in which a property is found that is looked up.
pub record PropertyEngine : Type 0 where
  pub makes_id : PropertyKey → Bool
  pub performs : PropertyCall → Bool
  pub is_standard : PropertyKey → Bool
  pub found_in : ℕ → PropertyKey → Option ℕ

-- A hook ends with JS_TRUE or JS_FALSE, after a call or without one, with a value of its own where there
-- is one, and with the object that it resolves the property in.
pub record HookEnd : Type 0 where
  pub succeeded : Bool
  pub called : Option PropertyCall
  pub own_value : Option Bool
  pub resolved_in : Option ℕ

abbrev pub nothing_done : HookEnd
nothing_done = record { succeeded = true; called = none; own_value = none; resolved_in = none }

abbrev after_call : PropertyEngine → PropertyCall → HookEnd
after_call engine call = record {
  succeeded = engine.performs call;
  called = some call;
  own_value = none;
  resolved_in = none;
}

abbrev no_id : HookEnd
no_id = record { succeeded = false; called = none; own_value = none; resolved_in = none }

-- `"isInner"`
abbrev pub is_inner_name : List ℕ
is_inner_name = 105 ∷ 115 ∷ 73 ∷ 110 ∷ 110 ∷ 101 ∷ 114 ∷ []

unfoldable same_bytes : List ℕ → List ℕ → Bool
same_bytes [] [] = true
same_bytes (x ∷ xs) (y ∷ ys) = (x == y) && same_bytes xs ys
same_bytes _ _ = false

unfoldable pub names_is_inner : PropertyKey → Bool
unfolding same_bytes
names_is_inner (string_key name) = same_bytes name is_inner_name
names_is_inner k = false

-- JS_ValueToId is applied to `*vp`, the value, and not to the name.
pub split_add_property : Objects → PropertyEngine → List ℕ → PropertyKey → PropertyKey → HookEnd
unfolding split_get_private split_inner_of
split_add_property objects engine chain key value =
    elim (split_inner_of (split_get_private objects chain)) [
      | none ↦ nothing_done
      | some inner ↦
          if engine.makes_id value then after_call engine (defines_property inner value) else no_id
    ]

-- Through an outer object, a string and a number are read from its inner one, and another key is not.
abbrev pub forward_key :
    PropertyEngine → (ℕ → PropertyKey → PropertyCall) → Option ℕ → PropertyKey → HookEnd
forward_key engine call none key = nothing_done
forward_key engine call (some inner) (string_key name) =
    after_call engine (call inner (string_key name))
forward_key engine call (some inner) (number_key n) = after_call engine (call inner (number_key n))
forward_key engine call (some inner) other_key = nothing_done

pub split_get_property : Objects → PropertyEngine → List ℕ → PropertyKey → HookEnd
unfolding split_get_private split_inner_of names_is_inner
split_get_property objects engine chain key = elim (split_get_private objects chain) [
  | none ↦ nothing_done
  | some c ↦
      if names_is_inner key
      then record {
        succeeded = true;
        called = none;
        own_value = some c.is_inner;
        resolved_in = none;
      }
      else forward_key engine gets_property (split_inner_of (some c)) key
]

pub split_set_property : Objects → PropertyEngine → List ℕ → PropertyKey → HookEnd
unfolding split_get_private split_inner_of
split_set_property objects engine chain key =
    forward_key engine sets_property (split_inner_of (split_get_private objects chain)) key

-- As in split_addProperty, the id is made of the value.
pub split_del_property : Objects → PropertyEngine → List ℕ → PropertyKey → PropertyKey → HookEnd
unfolding split_get_private split_inner_of
split_del_property objects engine chain key value =
    elim (split_inner_of (split_get_private objects chain)) [
      | none ↦ nothing_done
      | some inner ↦
          if engine.makes_id value then after_call engine (deletes_property inner value) else no_id
    ]

-- A lookup or a resolution that succeeds may find an object.
abbrev pub after_search : PropertyEngine → PropertyCall → Option ℕ → HookEnd
after_search engine call found = record (after_call engine call) {
  resolved_in = if engine.performs call then found else none;
}

-- `obj` is the first of its chain; with LAZY_STANDARD_CLASSES, which is defined.
abbrev pub split_resolve : Objects → PropertyEngine → ℕ → List ℕ → PropertyKey → Bool → HookEnd
unfolding split_get_private split_inner_of names_is_inner
split_resolve objects engine obj parents key assigning =
    if names_is_inner key
    then record (after_call engine (defines_is_inner obj key)) { resolved_in = some obj }
    else elim (split_get_private objects (obj ∷ parents)) [
      | none ↦ nothing_done
      | some c ↦ elim (split_inner_of (some c)) [
        | some inner ↦
            if engine.makes_id key
            then after_search engine (looks_up inner key) (engine.found_in inner key)
            else no_id
        | none ↦
            if assigning
            then nothing_done
            else after_search engine (resolves_standard obj key)
                (if engine.is_standard key then some obj else none)
      ]
    ]

-- NULL is `none`.
pub split_outer_object : Objects → ℕ → Option ℕ
split_outer_object objects o = elim (objects o) [
  | none ↦ some o
  | some c ↦ if c.is_inner then c.outer_object else some o
]

pub split_inner_object : Objects → ℕ → Option ℕ
split_inner_object objects o = elim (objects o) [
  | none ↦ some o
  | some c ↦ if c.frozen then some o else if c.is_inner then some o else c.inner_object
]

-- What the marking of an object keeps alive, and what its finalization frees.
abbrev pub split_mark : Objects → ℕ → Option ℕ
unfolding split_inner_of
split_mark objects o = split_inner_of (objects o)

abbrev pub split_finalize : Objects → ℕ → Objects
split_finalize objects o = update objects o none

-- Two objects of the class are one where their private data are; `other` is the object that the
-- value stands for, if it is one.
abbrev pub split_equality : Objects → ℕ → Option ℕ → Bool
split_equality objects o none = false
split_equality objects o (some other) = elim (objects other) [ none ↦ false | some c ↦ o == other ]
