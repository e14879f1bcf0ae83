-- ===== src/Shell/Split/Hooks.antt =====
-- What the hooks of the class of split global objects of src/js.cpp answer, after any creations.
-- What the hooks of the class answer for an object of the class.
use sysjs.Prelude.{false, if◌then◌else◌, none, refl, some, true, ℕ, ◌≡◌, ◌≢◌}
use sysjs.Shell.Split.{ComplexObject, Objects, split_inner_object, split_outer_object}
use sysjs.Shell.Split.Creation.{split_create_inner}
use sysjs.Shell.Split.Links.{
  IsLinked, Linked, Reach-IsLinked, SplitReach, create_inner-with_inner, inner_of, linked_frozen,
  linked_inner, linked_outer, outer_with, with_inner, with_inner-inner, with_inner-other,
  with_inner-outer,
}

pub HooksAgree : Objects → ℕ → Type 0
HooksAgree objects o =
    (outer : ℕ) × (inner : ℕ) × (split_outer_object objects o ≡ some outer)
    × (split_inner_object objects o ≡ some inner)
    × (split_outer_object objects inner ≡ some outer)

outer_at :
    (objects : Objects) (o : ℕ) (c : ComplexObject)
    → objects o ≡ some c
    → split_outer_object objects o ≡ (if c.is_inner then c.outer_object else some o)
unfolding split_outer_object
outer_at objects o c e = rw (split_outer_object, e) refl

inner_at :
    (objects : Objects) (o : ℕ) (c : ComplexObject)
    → objects o ≡ some c
    → split_inner_object objects o
      ≡ (if c.frozen then some o else if c.is_inner then some o else c.inner_object)
unfolding split_inner_object
inner_at objects o c e = rw (split_inner_object, e) refl

Linked-HooksAgree :
    (objects : Objects) (o : ℕ) (c : ComplexObject)
    → objects o ≡ some c
    → Linked objects o c
    → HooksAgree objects o
unfolding HooksAgree
Linked-HooksAgree objects o c here (linked_inner outer i e) =
    (outer, o, outer_at objects o c here, inner_at objects o c here, outer_at objects o c here)
Linked-HooksAgree objects o c here linked_frozen =
    (o, o, outer_at objects o c here, inner_at objects o c here, outer_at objects o c here)
Linked-HooksAgree objects o c here (linked_outer i e) =
    (o, i, outer_at objects o c here, inner_at objects o c here, outer_at objects i (inner_of o) e)

-- After any creations, the hooks of an object of the class never answer NULL, and its outer object and
-- the outer object of its inner one are the same.
pub split-hooks :
    {objects : Objects} (o : ℕ) (c : ComplexObject)
    → SplitReach objects
    → objects o ≡ some c
    → HooksAgree objects o
unfolding IsLinked
split-hooks {objects} o c r here = Linked-HooksAgree objects o c here (Reach-IsLinked r o c here)

-- What a new inner object `o` changes.
pub IsReplaced : ℕ → ℕ → Objects → Objects → Type 0
IsReplaced o outer objects after =
    (split_inner_object after outer ≡ some o)
    × (split_outer_object after o ≡ some outer)
    × (split_outer_object after outer ≡ some outer)
    × ((k : ℕ)
        → k ≢ o
        → k ≢ outer
        → (split_outer_object after k ≡ split_outer_object objects k)
          × (split_inner_object after k ≡ split_inner_object objects k))

-- An inner object that is created for an outer object, in whatever state was reached, is what the outer
-- one leads to and leads back to it, and every other object, the inner one before it too, leads where
-- it led.
pub split_create_inner-replaces :
    {objects : Objects} (o outer : ℕ) (c : ComplexObject)
    → SplitReach objects
    → objects o ≡ none
    → objects outer ≡ some c
    → c.is_inner ≡ false
    → (after : Objects) × (split_create_inner true o outer objects ≡ some after)
      × IsReplaced o outer objects after
unfolding IsReplaced split_outer_object split_inner_object
split_create_inner-replaces {objects} o outer c r new here not_inner =
    let linked = Reach-IsLinked r in
    let after = with_inner objects o outer c in
    let at_outer = with_inner-outer objects o outer c new here not_inner linked in
    let at_inner = with_inner-inner objects o outer c new here not_inner linked in
    let at_other = with_inner-other objects o outer c new here not_inner linked in
    (
      after,
      create_inner-with_inner objects o outer c new here not_inner linked,
      (
        inner_at after outer (outer_with o) at_outer,
        outer_at after o (inner_of outer) at_inner,
        outer_at after outer (outer_with o) at_outer,
        (λ k a b. (
          rw (split_outer_object, at_other k a b) refl,
          rw (split_inner_object, at_other k a b) refl,
        )),
      ),
    )
