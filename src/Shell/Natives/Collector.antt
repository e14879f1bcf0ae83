-- ===== src/Shell/Natives/Collector.antt =====
-- What `GCParameter` (src/js.cpp) sets.
use sysjs.Prelude.{
  ==_iff, Bool, Bool-cases, Option, ap, arith, false, inl, inr, ltb, none, refl, some, suc, true,
  zero, ℕ, ◌&&◌, ◌<◌, ◌==◌, ◌≡◌, ◌≢◌, ◌≤◌, ◌⊎◌,
}
use sysjs.Shell.Natives.{
  CollectorEnd, CollectorKey, KeyArgument, gc_bytes, gc_number, gc_parameter, is_read_only,
  is_trigger, key_named, key_not_string, no_key, parameter_failed, parameter_read, parameter_set,
  trigger_factor,
}

-- A parameter that is set is one that can be, with a value that it takes.
pub MaySet : ℕ → KeyArgument → Option ℕ → CollectorEnd → Type 0
MaySet argc k v (parameter_set p value) =
    (1 < argc)
    × (k ≡ key_named p)
    × (v ≡ some value)
    × (p ≢ gc_number)
    × (p ≢ gc_bytes)
    × ((p ≢ trigger_factor) ⊎ (100 ≤ value))
MaySet argc k v (parameter_read p) = (argc ≡ 1) × (k ≡ key_named p)
MaySet argc k v (parameter_failed says) = Unit {0}

key_differs : {p q : CollectorKey} → is_read_only p ≡ false → is_read_only q ≡ true → p ≢ q
key_differs r s e = let both = ap is_read_only e in cc

not_trigger : {p : CollectorKey} → is_trigger p ≡ false → p ≢ trigger_factor
not_trigger r e = let both = ap is_trigger e in cc

high_enough : (value : ℕ) → ltb value 100 ≡ false → 100 ≤ value
high_enough value e = ground arith

both_true : {a b : Bool} → a ≡ true → b ≡ true → (a && b) ≡ false → ⊥
both_true {a = true} {b = true} s t e = cc
both_true {a = true} {b = false} s t e = cc
both_true {a = false} s t e = cc

trigger_cases :
    (p : CollectorKey) (value : ℕ)
    → (is_trigger p && ltb value 100) ≡ false
    → (p ≢ trigger_factor) ⊎ (100 ≤ value)
trigger_cases p value e = elim (Bool-cases (is_trigger p)) [
  | inl t ↦ elim (Bool-cases (ltb value 100)) [
    | inl low ↦ absurd (both_true t low e)
    | inr high ↦ inr (high_enough value high)
  ]
  | inr n ↦ inl (not_trigger n)
]

set_checked :
    (argc : ℕ) (p : CollectorKey) (v : Option ℕ)
    → MaySet (suc argc) (key_named p) v (gc_parameter (suc argc) (key_named p) v)
unfolding gc_parameter MaySet
set_checked argc p none = elim (Bool-cases (argc == 0)) [
  | inl z ↦ rw z (ap suc ((==_iff argc 0).0 z), refl)
  | inr nz ↦ elim (Bool-cases (is_read_only p)) [ inl r ↦ rw (nz, r) tt | inr w ↦ rw (nz, w) tt ]
]
set_checked argc p (some value) = elim (Bool-cases (argc == 0)) [
  | inl z ↦ rw z (ap suc ((==_iff argc 0).0 z), refl)
  | inr nz ↦ elim (Bool-cases (is_read_only p)) [
    | inl r ↦ rw (nz, r) tt
    | inr w ↦ elim (Bool-cases (is_trigger p && ltb value 100)) [
      | inl low ↦ rw (nz, w, low) tt
      | inr fine ↦
          rw (nz, w, fine)
            (
              ground arith,
              refl,
              refl,
              key_differs w refl,
              key_differs w refl,
              trigger_cases p value fine,
            )
    ]
  ]
]

-- Only a parameter that is not read-only is set, to the value of the second argument, and the trigger
-- factor only to 100 or more; and a parameter is read where it is named by the only argument.
gc_parameter-MaySet :
    (argc : ℕ) (k : KeyArgument) (v : Option ℕ) → MaySet argc k v (gc_parameter argc k v)
unfolding gc_parameter MaySet
gc_parameter-MaySet zero k v = tt
gc_parameter-MaySet (suc argc) key_not_string v = tt
gc_parameter-MaySet (suc argc) no_key v = tt
gc_parameter-MaySet (suc argc) (key_named p) v = set_checked argc p v
