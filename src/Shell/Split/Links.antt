-- ===== src/Shell/Split/Links.antt =====
-- The links between the outer and the inner objects of src/js.cpp, through every sequence of creations.
use native.Mathlib.Decide.{ℕ_discrete}
use sysjs.Prelude.{
  Option, ap, false, none, refl, some, subst, sym, true, update, update_ne, update_self, ℕ, ◌∙◌,
  ◌≡◌, ◌≢◌,
}
use sysjs.Shell.Split.{ComplexObject, Objects}
use sysjs.Shell.Split.Creation.{split_create_inner, split_create_outer, thawed}

abbrev pub inner_of : ℕ → ComplexObject
inner_of outer = record {
  is_inner = true;
  frozen = false;
  inner_object = none;
  outer_object = some outer;
}

abbrev pub outer_with : ℕ → ComplexObject
outer_with inner = record {
  is_inner = false;
  frozen = false;
  inner_object = some inner;
  outer_object = none;
}

abbrev pub frozen_outer : ComplexObject
frozen_outer = record { is_inner = false; frozen = true; inner_object = none; outer_object = none }

-- An inner object leads to an outer one that has an inner object, and an outer one, once it is thawed,
-- to an inner one that leads back.
pub data Linked (objects : Objects) (o : ℕ) : ComplexObject → Type 0 where
  linked_inner :
      (outer inner : ℕ)
      → objects outer ≡ some (outer_with inner)
      → Linked objects o (inner_of outer)
  linked_frozen : Linked objects o frozen_outer
  linked_outer :
      (inner : ℕ) → objects inner ≡ some (inner_of o) → Linked objects o (outer_with inner)

unfoldable pub IsLinked : Objects → Type 0
IsLinked objects = (o : ℕ) (c : ComplexObject) → objects o ≡ some c → Linked objects o c

-- The creations: an outer object that is new, and an inner one, which is new, for an outer one.
pub data SplitReach : Objects → Type 0 where
  no_objects : SplitReach (λ o. none)
  outer_created :
      {objects objects' : Objects} (o : ℕ)
      → SplitReach objects
      → objects o ≡ none
      → split_create_outer true o objects ≡ some objects'
      → SplitReach objects'
  inner_created :
      {objects objects' : Objects} (o outer : ℕ) (c : ComplexObject)
      → SplitReach objects
      → objects o ≡ none
      → objects outer ≡ some c
      → c.is_inner ≡ false
      → split_create_inner true o outer objects ≡ some objects'
      → SplitReach objects'

-- What is the same in the objects that the data lead to.
Linked-kept :
    {objects objects' : Objects} {o : ℕ} {c : ComplexObject}
    → ((p : ℕ) (d : ComplexObject) → objects p ≡ some d → objects' p ≡ some d)
    → Linked objects o c
    → Linked objects' o c
Linked-kept keeps (linked_inner outer inner e) = linked_inner outer inner (keeps outer _ e)
Linked-kept keeps linked_frozen = linked_frozen
Linked-kept keeps (linked_outer inner e) = linked_outer inner (keeps inner _ e)

none-some : {d : ComplexObject} → ◌≢◌ {A = Option ComplexObject} none (some d)
none-some e = cc

new_ne :
    (objects : Objects) {o k : ℕ} {d : ComplexObject}
    → objects o ≡ none
    → objects k ≡ some d
    → k ≢ o
new_ne objects new h q = absurd (none-some (sym new ∙ sym (ap objects q) ∙ h))

some_self : {c d : ComplexObject} → ◌≡◌ {A = Option ComplexObject} (some c) (some d) → c ≡ d
some_self e = cc

some-eq : {a b : Objects} → ◌≡◌ {A = Option Objects} (some a) (some b) → a ≡ b
some-eq e = cc

create_outer-IsLinked :
    (objects : Objects) (o : ℕ)
    → objects o ≡ none
    → IsLinked objects
    → IsLinked (update objects o (some frozen_outer))
unfolding IsLinked
create_outer-IsLinked objects o new linked p c e =
    let after = update objects o (some frozen_outer) in
    elim (ℕ_discrete p o) [
      | yes q ↦
          subst (Linked after p)
            (some_self (sym (ap after q ∙ update_self objects o (some frozen_outer)) ∙ e))
            linked_frozen
      | no apart ↦
          Linked-kept
            (λ k d h. update_ne objects o (some frozen_outer) k (new_ne objects new h) ∙ h)
            (linked p c (sym (update_ne objects o (some frozen_outer) p apart) ∙ e))
    ]

outer_thawed :
    {objects : Objects} {outer : ℕ} {c : ComplexObject} (o : ℕ)
    → Linked objects outer c
    → c.is_inner ≡ false
    → thawed (some c) o ≡ some (outer_with o)
outer_thawed o (linked_inner out i h) e = absurd (cc)
outer_thawed o linked_frozen e = refl
outer_thawed o (linked_outer i h) e = refl

module _ (objects : Objects) (o outer : ℕ) (c : ComplexObject) where
  -- The objects after an inner one was created.
  pub with_inner : Objects
  with_inner = update (update objects o (some (inner_of outer))) outer (some (outer_with o))

  module _ (new : objects o ≡ none) (here : objects outer ≡ some c) (not_inner : c.is_inner ≡ false)
      (linked : IsLinked objects) where
    pub create_inner-with_inner : split_create_inner true o outer objects ≡ some with_inner
    unfolding split_create_inner with_inner IsLinked
    create_inner-with_inner =
        let before =
          update_ne objects o (some (inner_of outer)) outer (new_ne objects new here) ∙ here in
        ap (λ d. some (update (update objects o (some (inner_of outer))) outer d))
          (ap (λ d. thawed d o) before ∙ outer_thawed o (linked outer c here) not_inner)

    pub with_inner-outer : with_inner outer ≡ some (outer_with o)
    unfolding with_inner
    with_inner-outer =
        update_self (update objects o (some (inner_of outer))) outer (some (outer_with o))

    pub with_inner-inner : with_inner o ≡ some (inner_of outer)
    unfolding with_inner
    with_inner-inner =
        update_ne (update objects o (some (inner_of outer))) outer (some (outer_with o)) o
          (λ q. new_ne objects new here (sym q))
        ∙ update_self objects o (some (inner_of outer))

    pub with_inner-other : (k : ℕ) → k ≢ o → k ≢ outer → with_inner k ≡ objects k
    unfolding with_inner
    with_inner-other k a b =
        update_ne (update objects o (some (inner_of outer))) outer (some (outer_with o)) k b
        ∙ update_ne objects o (some (inner_of outer)) k a

    Linked-with_inner : {p : ℕ} {d : ComplexObject} → Linked objects p d → Linked with_inner p d
    Linked-with_inner (linked_inner out i h) = elim (ℕ_discrete out outer) [
      | yes q ↦ linked_inner out o (ap with_inner q ∙ with_inner-outer)
      | no far ↦ linked_inner out i (with_inner-other out (new_ne objects new h) far ∙ h)
    ]
    Linked-with_inner linked_frozen = linked_frozen
    Linked-with_inner (linked_outer i h) = linked_outer i (
        with_inner-other i (new_ne objects new h)
          (λ q. absurd (inner-outer (some_self (sym h ∙ ap objects q ∙ here))))
        ∙ h)
      where
        inner-outer : {p : ℕ} → inner_of p ≡ c → ⊥
        inner-outer e = let both = ap (λ x. x.is_inner) e in cc

    create_inner-IsLinked : IsLinked with_inner
    unfolding IsLinked
    create_inner-IsLinked p d e = elim (ℕ_discrete p outer) [
      | yes q ↦
          subst (Linked with_inner p) (some_self (sym with_inner-outer ∙ sym (ap with_inner q) ∙ e))
            (subst (λ k. Linked with_inner k (outer_with o)) (sym q)
              (linked_outer o with_inner-inner))
      | no far ↦ elim (ℕ_discrete p o) [
        | yes q ↦
            subst (Linked with_inner p)
              (some_self (sym with_inner-inner ∙ sym (ap with_inner q) ∙ e))
              (linked_inner outer o with_inner-outer)
        | no apart ↦ Linked-with_inner (linked p d (sym (with_inner-other p apart far) ∙ e))
      ]
    ]

-- Through every sequence of creations.
pub Reach-IsLinked : {objects : Objects} → SplitReach objects → IsLinked objects
unfolding split_create_outer IsLinked
Reach-IsLinked no_objects = λ o c e. absurd (none-some e)
Reach-IsLinked (outer_created {objects} o r new e) =
    subst IsLinked (some-eq e) (create_outer-IsLinked objects o new (Reach-IsLinked r))
Reach-IsLinked (inner_created {objects} o outer c r new here not_inner e) =
    let linked = Reach-IsLinked r in
    subst IsLinked
      (some-eq (sym (create_inner-with_inner objects o outer c new here not_inner linked) ∙ e))
      (create_inner-IsLinked objects o outer c new here not_inner linked)
