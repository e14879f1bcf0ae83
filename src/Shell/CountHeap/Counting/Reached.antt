-- ===== src/Shell/CountHeap/Counting/Reached.antt =====
-- The number that `CountHeap` (src/js.cpp) returns.
use sysjs.Prelude.{
  Bool, List, Option, ap, arith, false, inl, inr, none, refl, some, subst, suc, true, weight_below,
  weight_below-bound, weight_below-none, ℕ, ◌↔◌, ◌≡◌,
}
use sysjs.Shell.CountHeap.{
  Counted, Heap, Memories, ThingKind, Tracer, count_from, counted, counted_of, empty_tracer,
  notify_each,
}
use sysjs.Shell.CountHeap.Counting.{
  Fine, In, Met, Reaches, Traces, from_start, from_thing, notify_each-Fine, notify_each-Met,
  waiting, weight,
}
use sysjs.Shell.CountHeap.Counting.Rounds.{
  Finished, Good, Nowhere, Suffices, count_loop-Finished, count_loop-Good, notify_each-good,
}
use sysjs.Shell.CountHeap.Tracing.{
  Below, InHeap, count_loop-ends, notify_each-less, unmet, unmet_weight,
}

module _ (n : ℕ) (heap : Heap) (wanted : ThingKind → Bool) (start_things : List ℕ) where
  -- The number of the things that are reached and wanted.
  pub IsCount : Counted → Type 0
  IsCount result =
      (seen : ℕ → Bool) × ((x : ℕ) → (seen x ≡ true) ↔ Reaches heap start_things x)
      × (result ≡ counted (weight_below (weight heap wanted) n seen))

  seen_of_reached :
      (seen : ℕ → Bool)
      → ((c : ℕ) → In c start_things → seen c ≡ true)
      → ((x : ℕ) → seen x ≡ true → (c : ℕ) → In c (heap.children x) → seen c ≡ true)
      → {x : ℕ} → Reaches heap start_things x
      → seen x ≡ true
  seen_of_reached seen first next (from_start m) = first _ m
  seen_of_reached seen first next (from_thing r m) = next _ (seen_of_reached seen first next r) _ m

  counted_of-IsCount :
      (t : Tracer) (o : Option (ℕ × Tracer))
      → (r : ℕ × Tracer) × (o ≡ some r)
      → Finished n heap wanted start_things t o
      → Good n heap wanted start_things o
      → ((c : ℕ) → In c start_things → t.visited c ≡ true)
      → IsCount (counted_of o)
  unfolding Finished Good IsCount In Nowhere waiting
  counted_of-IsCount t none (r, e) f g first = absurd (cc)
  counted_of-IsCount t (some (k, t')) ends (inl bad) g first = absurd (cc)
  counted_of-IsCount t (some (k, t')) ends (inr (h, e, keeps)) g first = (
    t'.visited,
    (λ x. (
      h.sound x,
      seen_of_reached t'.visited (λ c m. keeps c (first c m))
          (λ y v c m. elim (h.closed y v) [
            | inl l ↦ absurd (subst (In y) e l).0
            | inr (inl w) ↦ absurd w.0
            | inr (inr all) ↦ all c m
          ]),
    )),
    simp g.0 (ap counted (omega (arith, h.adds_up, ap (waiting heap wanted) e))),
  )

empty-Traces :
    (n : ℕ) (heap : Heap) (wanted : ThingKind → Bool) (start_things : List ℕ)
    → Traces n heap wanted start_things Nowhere 0 empty_tracer
unfolding waiting In weight
empty-Traces n heap wanted start_things = record {
  sound = λ x v. absurd (cc);
  listed = λ x m. absurd m.0;
  closed = λ x v. absurd (cc);
  adds_up = omega (arith, weight_below-none (weight heap wanted) n (λ i. false) (λ i. refl));
}

-- Where all calls find memory, `CountHeap` returns the number of the things of the wanted kinds that
-- its start reaches, each counted once: those of a set `seen` whose members are just the things that
-- are reached. The heap has `n` things, and the start is of them.
pub count_from-reached :
    (n : ℕ) (heap : Heap) (memories : Memories) (wanted : ThingKind → Bool) (start_things : List ℕ)
    → InHeap n heap
    → Below n start_things
    → Suffices memories
    → IsCount n heap wanted start_things (count_from n heap memories wanted start_things)
unfolding count_from Fine Met Suffices unmet
count_from-reached n heap memories wanted start_things b below m =
    let t0 = notify_each memories empty_tracer start_things in
    let good = notify_each-good memories empty_tracer start_things m refl in
    let less = notify_each-less memories n empty_tracer start_things below in
    let few = weight_below-bound (λ _. unmet_weight) n (λ i. false) (λ i. omega arith) in
    simp m.0 (elim (notify_each-Met n heap wanted start_things memories empty_tracer start_things) [
      | inl bad ↦ absurd (cc)
      | inr (keeps, met) ↦
          elim (notify_each-Fine n heap wanted start_things memories Nowhere 0 empty_tracer
            start_things below (λ c r. from_start r)
            (inr (empty-Traces n heap wanted start_things))) [
              | inl bad ↦ absurd (cc)
              | inr h ↦
                  counted_of-IsCount n heap wanted start_things t0 _
                    (count_loop-ends n (suc n) heap memories wanted 0 t0 b
                      (omega (arith, less, few)))
                    (count_loop-Finished n heap wanted start_things (suc n) memories 0 t0 b h)
                    (count_loop-Good n heap wanted start_things (suc n) memories 0 t0 m good) met
            ]
    ])
