-- ===== src/Shell/CountHeap/Counting.antt =====
-- What `CountHeap` (src/js.cpp) counts: the things that its start reaches.
pub mod Rounds
pub mod Reached
use native.Mathlib.Decide.{ℕ_discrete}
use sysjs.Host.{closed}
use sysjs.Prelude.{
  Bool, List, [], ap, arith, false, if◌then◌else◌, inl, inr, refl, subst, sym, true, update,
  update_ne, update_self, weight_below, weight_below-update, ℕ, ◌+◌, ◌<◌, ◌∙◌, ◌∷◌, ◌≡◌, ◌⊎◌,
}
use sysjs.Shell.CountHeap.{Heap, Memories, ThingKind, Tracer, count_notify, notify_each}
use sysjs.Shell.CountHeap.Tracing.{
  Below, Notified, count_notify-Notified, ignored, pushed, refused_entry, refused_node,
}
use sysjs.SysUtil.Constants.{listed}

pub In : ℕ → List ℕ → Type 0
In x [] = ⊥ × Unit {0}
In x (y ∷ ys) = (x ≡ y) ⊎ In x ys

-- The things that are reached from the first ones through what each holds.
pub data Reaches (heap : Heap) (start_things : List ℕ) : ℕ → Type 0 where
  from_start : {x : ℕ} → In x start_things → Reaches heap start_things x
  from_thing :
      {x c : ℕ} → Reaches heap start_things x → In c (heap.children x) → Reaches heap start_things c

pub weight : Heap → (ThingKind → Bool) → ℕ → Bool → ℕ
weight heap wanted x seen = if seen then if wanted (heap.kind x) then 1 else 0 else 0

-- The things of a list that are counted.
pub waiting : Heap → (ThingKind → Bool) → List ℕ → ℕ
unfolding weight
waiting heap wanted [] = 0
waiting heap wanted (x ∷ xs) = weight heap wanted x true + waiting heap wanted xs

-- The tracer in the middle of the work: `at_work` tells the thing whose children are being met.
module _ (n : ℕ) (heap : Heap) (wanted : ThingKind → Bool) (start_things : List ℕ) where
  pub record Traces (at_work : ℕ → Type 0) (counter : ℕ) (t : Tracer) : Type 0 where
    pub sound : (x : ℕ) → t.visited x ≡ true → Reaches heap start_things x
    pub listed : (x : ℕ) → In x t.trace_list → t.visited x ≡ true
    pub closed :
        (x : ℕ)
        → t.visited x ≡ true
        → In x t.trace_list ⊎ at_work x ⊎ ((c : ℕ) → In c (heap.children x) → t.visited c ≡ true)
    pub adds_up :
        counter + waiting heap wanted t.trace_list ≡ weight_below (weight heap wanted) n t.visited

  grown : (f : ℕ → Bool) (c x : ℕ) → f x ≡ true → update f c true x ≡ true
  grown f c x h = elim (ℕ_discrete x c) [
    | yes e ↦ ap (update f c true) e ∙ update_self f c true
    | no ne ↦ update_ne f c true x ne ∙ h
  ]

  pushed-Traces :
      (at_work : ℕ → Type 0) (counter c recycled allocated : ℕ) (t : Tracer)
      → c < n
      → Reaches heap start_things c
      → t.visited c ≡ false
      → Traces at_work counter t
      → Traces at_work counter (record {
        ok = true;
        visited = update t.visited c true;
        trace_list = c ∷ t.trace_list;
        recycled = recycled;
        allocated = allocated;
      })
  unfolding waiting weight In
  pushed-Traces at_work counter c r a t lt reached new h = record {
    sound = λ x v. elim (ℕ_discrete x c) [
      | yes e ↦ subst (Reaches heap start_things) (sym e) reached
      | no ne ↦ h.sound x (sym (update_ne t.visited c true x ne) ∙ v)
    ];
    listed = λ x m. elim m [
      | inl e ↦ ap (update t.visited c true) e ∙ update_self t.visited c true
      | inr m' ↦ grown t.visited c x (h.listed x m')
    ];
    closed = λ x v. elim (ℕ_discrete x c) [
      | yes e ↦ inl (inl e)
      | no ne ↦ elim (h.closed x (sym (update_ne t.visited c true x ne) ∙ v)) [
        | inl m ↦ inl (inr m)
        | inr (inl w) ↦ inr (inl w)
        | inr (inr k) ↦ inr (inr (λ d m. grown t.visited c d (k d m)))
      ]
    ];
    adds_up = omega (
      arith,
      h.adds_up,
      weight_below-update (weight heap wanted) n t.visited c true lt,
      ap (weight heap wanted c) new,
    );
  }

  -- A tracer that has failed, or that has what is said above.
  pub Fine : (ℕ → Type 0) → ℕ → Tracer → Type 0
  Fine at_work counter t = (t.ok ≡ false) ⊎ Traces at_work counter t

  -- What was seen is still seen, and the things of the list are seen, unless the tracer has failed.
  pub Met : Tracer → Tracer → List ℕ → Type 0
  Met t t' cs =
      (t'.ok ≡ false)
      ⊎ (((x : ℕ) → t.visited x ≡ true → t'.visited x ≡ true)
          × ((c : ℕ) → In c cs → t'.visited c ≡ true))

  Notified-Fine :
      {memories : Memories} {c : ℕ} {t t' : Tracer} (at_work : ℕ → Type 0) (counter : ℕ)
      → Notified memories c t t'
      → c < n
      → Reaches heap start_things c
      → Fine at_work counter t
      → Fine at_work counter t'
  unfolding Fine
  Notified-Fine at_work counter (ignored why) lt reached h = h
  Notified-Fine at_work counter (refused_entry q) lt reached h = inl refl
  Notified-Fine at_work counter (refused_node new q) lt reached h = inl refl
  Notified-Fine at_work counter (pushed r a good new nodes) lt reached (inl bad) = absurd (cc)
  Notified-Fine {c = c} {t = t} at_work counter (pushed r a good new nodes) lt reached (inr h) =
      inr (pushed-Traces at_work counter c r a t lt reached new h)

  Notified-Met :
      {memories : Memories} {c : ℕ} {t t' : Tracer}
      → Notified memories c t t'
      → (t'.ok ≡ false)
        ⊎ (((x : ℕ) → t.visited x ≡ true → t'.visited x ≡ true) × (t'.visited c ≡ true))
  Notified-Met (ignored (inl bad)) = inl bad
  Notified-Met (ignored (inr seen)) = inr ((λ x v. v), seen)
  Notified-Met (refused_entry q) = inl refl
  Notified-Met (refused_node new q) = inl refl
  Notified-Met {c = c} {t = t} (pushed r a good new nodes) =
      inr ((λ x v. grown t.visited c x v), update_self t.visited c true)

  Notified-failed :
      {memories : Memories} {c : ℕ} {t t' : Tracer}
      → Notified memories c t t'
      → t.ok ≡ false
      → t'.ok ≡ false
  Notified-failed (ignored why) bad = bad
  Notified-failed (refused_entry q) bad = refl
  Notified-failed (refused_node new q) bad = refl
  Notified-failed (pushed r a good new nodes) bad = absurd (cc)

  pub notify_each-failed :
      (memories : Memories) (t : Tracer) (cs : List ℕ)
      → t.ok ≡ false
      → (notify_each memories t cs).ok ≡ false
  unfolding notify_each
  notify_each-failed memories t [] bad = bad
  notify_each-failed memories t (c ∷ cs) bad =
      notify_each-failed memories (count_notify memories t c) cs
        (Notified-failed (count_notify-Notified memories t c) bad)

  pub notify_each-Met :
      (memories : Memories) (t : Tracer) (cs : List ℕ) → Met t (notify_each memories t cs) cs
  unfolding notify_each Met In
  notify_each-Met memories t [] = inr ((λ x v. v), (λ c m. absurd m.0))
  notify_each-Met memories t (c ∷ cs) =
      let t1 = count_notify memories t c in
      elim (Notified-Met (count_notify-Notified memories t c)) [
        | inl bad ↦ inl (notify_each-failed memories t1 cs bad)
        | inr (keeps, seen) ↦ elim (notify_each-Met memories t1 cs) [
          | inl bad ↦ inl bad
          | inr (keeps', met) ↦ inr (
            (λ x v. keeps' x (keeps x v)),
            (λ d m. elim m [ inl e ↦ keeps' d (ap t1.visited e ∙ seen) | inr m' ↦ met d m' ]),
          )
        ]
      ]

  pub notify_each-Fine :
      (memories : Memories) (at_work : ℕ → Type 0) (counter : ℕ) (t : Tracer) (cs : List ℕ)
      → Below n cs
      → ((c : ℕ) → In c cs → Reaches heap start_things c)
      → Fine at_work counter t
      → Fine at_work counter (notify_each memories t cs)
  unfolding notify_each Below In
  notify_each-Fine memories at_work counter t [] b reached h = h
  notify_each-Fine memories at_work counter t (c ∷ cs) b reached h =
      notify_each-Fine memories at_work counter (count_notify memories t c) cs b.1
        (λ d m. reached d (inr m))
        (Notified-Fine at_work counter (count_notify-Notified memories t c) b.0
          (reached c (inl refl)) h)
