-- ===== src/Shell/Split/Properties.antt =====
-- Where the hooks of `split_global` (src/js.cpp) hand what is done to the properties of an outer object.
use sysjs.Prelude.{List, false, none, some, ℕ, ◌∷◌, ◌≡◌, ◌⊎◌}
use sysjs.Shell.Split.{
  ComplexObject, HookEnd, Objects, PropertyCall, PropertyEngine, PropertyKey, defines_property,
  deletes_property, gets_property, nothing_done, sets_property, split_add_property,
  split_del_property, split_get_property, split_inner_object, split_set_property, string_key,
}

-- The first object of a chain of parents that is of the class, with its private data.
pub data FirstOf (objects : Objects) (o : ℕ) (c : ComplexObject) : List ℕ → Type 0 where
  first_here : {parents : List ℕ} → objects o ≡ some c → FirstOf objects o c (o ∷ parents)
  first_behind :
      {p : ℕ} {parents : List ℕ}
      → objects p ≡ none
      → FirstOf objects o c parents
      → FirstOf objects o c (p ∷ parents)

-- How the hooks for properties end, for a name that is read, set, added and deleted.
pub record HookEnds : Type 0 where
  pub on_get : HookEnd
  pub on_set : HookEnd
  pub on_add : HookEnd
  pub on_delete : HookEnd

abbrev pub hook_ends : Objects → PropertyEngine → List ℕ → List ℕ → PropertyKey → HookEnds
hook_ends objects engine chain name value = record {
  on_get = split_get_property objects engine chain (string_key name);
  on_set = split_set_property objects engine chain (string_key name);
  on_add = split_add_property objects engine chain (string_key name) value;
  on_delete = split_del_property objects engine chain (string_key name) value;
}

-- No hook calls the engine, and all end with JS_TRUE.
pub Untouched : HookEnds → Type 0
Untouched ends =
    (ends.on_get ≡ nothing_done)
    × (ends.on_set ≡ nothing_done)
    × (ends.on_add ≡ nothing_done)
    × (ends.on_delete ≡ nothing_done)

Hands : PropertyEngine → HookEnd → PropertyCall → Type 0
Hands engine h call = (h.called ≡ some call) × (h.succeeded ≡ engine.performs call)

-- Every hook makes one call of the engine for the object `inner`, and ends as it does.
pub AllHand : PropertyEngine → ℕ → List ℕ → PropertyKey → HookEnds → Type 0
unfolding Hands
AllHand engine inner name value ends =
    Hands engine ends.on_get (gets_property inner (string_key name))
    × Hands engine ends.on_set (sets_property inner (string_key name))
    × Hands engine ends.on_add (defines_property inner value)
    × Hands engine ends.on_delete (deletes_property inner value)

-- The hooks for properties agree with the one for the inner object.
pub FollowsInner : Objects → PropertyEngine → List ℕ → PropertyKey → ℕ → HookEnds → Type 0
FollowsInner objects engine name value o ends =
    ((split_inner_object objects o ≡ some o) × Untouched ends)
    ⊎ ((split_inner_object objects o ≡ none) × Untouched ends)
    ⊎ ((inner : ℕ) × (c : ComplexObject) × (objects o ≡ some c)
        × (c.is_inner ≡ false)
        × (split_inner_object objects o ≡ some inner)
        × AllHand engine inner name value ends)
