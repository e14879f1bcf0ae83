-- ===== src/Shell/CountHeap/Counting/Rounds.antt =====
-- The rounds of the loop of `CountHeap` (src/js.cpp).
use sysjs.Prelude.{
  Bool, Bool-cases, List, List-cases, Option, [], ap, arith, false, if◌then◌else◌, inl, inr, none,
  refl, some, subst, suc, sym, true, zero, ℕ, ◌∷◌, ◌≡◌, ◌⊎◌,
}
use sysjs.Shell.CountHeap.{Heap, Memories, ThingKind, Tracer, count_loop, count_notify, notify_each}
use sysjs.Shell.CountHeap.Counting.{
  Fine, In, Met, Traces, from_thing, notify_each-Fine, notify_each-Met, notify_each-failed, waiting,
  weight,
}
use sysjs.Shell.CountHeap.Tracing.{
  InHeap, Notified, count_notify-Notified, ignored, pushed, refused_entry, refused_node,
}

unfoldable pub Nowhere : ℕ → Type 0
Nowhere x = ⊥ × Unit {0}

abbrev one_if : Bool → ℕ
one_if b = if b then 1 else 0

count_loop-nil :
    (fuel : ℕ) (heap : Heap) (memories : Memories) (wanted : ThingKind → Bool) (counter : ℕ)
    (t : Tracer)
    → t.trace_list ≡ []
    → count_loop (suc fuel) heap memories wanted counter t ≡ some (counter, t)
unfolding count_loop
count_loop-nil fuel heap memories wanted counter t e = rw e refl

-- What is left after the first thing of the list and its children.
next_tracer : Heap → Memories → ℕ → List ℕ → Tracer → Tracer
next_tracer heap memories thing rest t =
    notify_each memories (record t { trace_list = rest; recycled = suc t.recycled })
      (heap.children thing)

count_loop-cons :
    (fuel : ℕ) (heap : Heap) (memories : Memories) (wanted : ThingKind → Bool) (counter : ℕ)
    (t : Tracer) (thing : ℕ) (rest : List ℕ)
    → t.trace_list ≡ thing ∷ rest
    → count_loop (suc fuel) heap memories wanted counter t
      ≡ count_loop fuel heap memories wanted
          (if wanted (heap.kind thing) then suc counter else counter)
          (next_tracer heap memories thing rest t)
unfolding count_loop next_tracer
count_loop-cons fuel heap memories wanted counter t thing rest e = rw e refl

-- All calls find memory.
unfoldable pub Suffices : Memories → Type 0
Suffices memories =
    (memories.starts_table ≡ true)
    × ((c : ℕ) → memories.enters c ≡ true)
    × ((k : ℕ) → memories.allocates_node k ≡ true)

Notified-good :
    {memories : Memories} {c : ℕ} {t t' : Tracer}
    → Suffices memories
    → Notified memories c t t'
    → t.ok ≡ true
    → t'.ok ≡ true
unfolding Suffices
Notified-good m (ignored why) good = good
Notified-good {c = c} m (refused_entry q) good = let p = m.1 c in absurd (cc)
Notified-good {t = t} m (refused_node new q) good = let p = m.2 t.allocated in absurd (cc)
Notified-good m (pushed r a h new nodes) good = refl

pub notify_each-good :
    (memories : Memories) (t : Tracer) (cs : List ℕ)
    → Suffices memories
    → t.ok ≡ true
    → (notify_each memories t cs).ok ≡ true
unfolding notify_each
notify_each-good memories t [] m good = good
notify_each-good memories t (c ∷ cs) m good =
    notify_each-good memories (count_notify memories t c) cs m
      (Notified-good m (count_notify-Notified memories t c) good)

module _ (n : ℕ) (heap : Heap) (wanted : ThingKind → Bool) (start_things : List ℕ) where
  -- The first thing of the list is taken from it, and counted where it is wanted.
  taken-Traces :
      (counter thing recycled : ℕ) (rest : List ℕ) (t : Tracer)
      → t.trace_list ≡ thing ∷ rest
      → Traces n heap wanted start_things Nowhere counter t
      → Traces n heap wanted start_things
          (λ x. x ≡ thing)
          (if wanted (heap.kind thing) then suc counter else counter)
          (record t { trace_list = rest; recycled = recycled })
  unfolding waiting weight In Nowhere
  taken-Traces counter thing recycled rest t e h = record {
    sound = h.sound;
    listed = λ x m. h.listed x (subst (In x) (sym e) (inr m));
    closed = λ x v. elim (h.closed x v) [
      | inl m ↦ elim (subst (In x) e m) [ inl q ↦ inr (inl q) | inr m' ↦ inl m' ]
      | inr (inl w) ↦ absurd w.0
      | inr (inr k) ↦ inr (inr k)
    ];
    adds_up =
        let before = h.adds_up in
        let same = ap (waiting heap wanted) e in
        elim (Bool-cases (wanted (heap.kind thing))) [
          | inl q ↦ rw q (omega (arith, before, same, ap one_if q))
          | inr q ↦ rw q (omega (arith, before, same, ap one_if q))
        ];
  }

  -- The children of the thing were met, which is then done.
  met-Traces :
      (counter thing : ℕ) (t : Tracer)
      → ((c : ℕ) → In c (heap.children thing) → t.visited c ≡ true)
      → Traces n heap wanted start_things (λ x. x ≡ thing) counter t
      → Traces n heap wanted start_things Nowhere counter t
  met-Traces counter thing t met h = record {
    sound = h.sound;
    listed = h.listed;
    closed = λ x v. elim (h.closed x v) [
      | inl m ↦ inl m
      | inr (inl w) ↦ inr (inr (λ c m. met c (subst (λ y. In c (heap.children y)) w m)))
      | inr (inr k) ↦ inr (inr k)
    ];
    adds_up = h.adds_up;
  }

  -- How the loop ends, from a tracer.
  unfoldable pub Finished : Tracer → Option (ℕ × Tracer) → Type 0
  Finished t none = Unit
  Finished t (some (k, t')) =
      (t'.ok ≡ false)
      ⊎ (Traces n heap wanted start_things Nowhere k t'
          × (t'.trace_list ≡ [])
          × ((x : ℕ) → t.visited x ≡ true → t'.visited x ≡ true))

  Failed : Option (ℕ × Tracer) → Type 0
  Failed none = Unit
  Failed (some (k, t')) = (t'.ok ≡ false) × Unit {0}

  count_loop-Failed :
      (fuel : ℕ) (memories : Memories) (counter : ℕ) (t : Tracer)
      → t.ok ≡ false
      → Failed (count_loop fuel heap memories wanted counter t)
  unfolding count_loop Failed next_tracer
  count_loop-Failed zero memories counter t bad = tt
  count_loop-Failed (suc fuel) memories counter t bad = elim (List-cases t.trace_list) [
    | inl e ↦ subst Failed (sym (count_loop-nil fuel heap memories wanted counter t e)) (bad, tt)
    | inr (thing, rest, e) ↦
        subst Failed (sym (count_loop-cons fuel heap memories wanted counter t thing rest e)) (
          count_loop-Failed fuel memories _ _
            (notify_each-failed n heap wanted start_things memories _ (heap.children thing) bad))
  ]

  Finished-Failed : (t : Tracer) (o : Option (ℕ × Tracer)) → Failed o → Finished t o
  unfolding Finished Failed
  Finished-Failed t none h = tt
  Finished-Failed t (some (k, t')) h = inl h.0

  Finished-grown :
      (t t1 : Tracer) (o : Option (ℕ × Tracer))
      → ((x : ℕ) → t.visited x ≡ true → t1.visited x ≡ true)
      → Finished t1 o
      → Finished t o
  unfolding Finished
  Finished-grown t t1 none keeps h = tt
  Finished-grown t t1 (some (k, t')) keeps (inl bad) = inl bad
  Finished-grown t t1 (some (k, t')) keeps (inr (h, e, keeps')) =
      inr (h, e, (λ x v. keeps' x (keeps x v)))

  pub count_loop-Finished :
      (fuel : ℕ) (memories : Memories) (counter : ℕ) (t : Tracer)
      → InHeap n heap
      → Traces n heap wanted start_things Nowhere counter t
      → Finished t (count_loop fuel heap memories wanted counter t)
  unfolding count_loop Finished InHeap next_tracer Fine Met In
  count_loop-Finished zero memories counter t b h = tt
  count_loop-Finished (suc fuel) memories counter t b h = elim (List-cases t.trace_list) [
    | inl e ↦
        subst (Finished t) (sym (count_loop-nil fuel heap memories wanted counter t e))
          (inr (h, e, (λ x v. v)))
    | inr (thing, rest, e) ↦
        let counter' = if wanted (heap.kind thing) then suc counter else counter in
        let t0 : Tracer = record t { trace_list = rest; recycled = suc t.recycled } in
        let t1 = next_tracer heap memories thing rest t in
        let h0 = taken-Traces counter thing (suc t.recycled) rest t e h in
        subst (Finished t) (sym (count_loop-cons fuel heap memories wanted counter t thing rest e))
          (elim (notify_each-Met n heap wanted start_things memories t0 (heap.children thing)) [
            | inl bad ↦ Finished-Failed t _ (count_loop-Failed fuel memories counter' t1 bad)
            | inr (keeps, met) ↦
                elim (notify_each-Fine n heap wanted start_things memories (λ x. x ≡ thing) counter'
                  t0 (heap.children thing) (b.1 thing)
                  (λ c m.
                    from_thing
                      (h.sound thing (h.listed thing (subst (In thing) (sym e) (inl refl)))) m)
                  (inr h0)) [
                    | inl bad ↦
                        Finished-Failed t _ (count_loop-Failed fuel memories counter' t1 bad)
                    | inr h1 ↦ Finished-grown t t1 _ keeps (
                        count_loop-Finished fuel memories counter' t1 b
                          (met-Traces counter' thing t1 met h1))
                  ]
          ])
  ]

  unfoldable pub Good : Option (ℕ × Tracer) → Type 0
  Good none = Unit
  Good (some (k, t')) = (t'.ok ≡ true) × Unit {0}

  pub count_loop-Good :
      (fuel : ℕ) (memories : Memories) (counter : ℕ) (t : Tracer)
      → Suffices memories
      → t.ok ≡ true
      → Good (count_loop fuel heap memories wanted counter t)
  unfolding count_loop Good next_tracer
  count_loop-Good zero memories counter t m good = tt
  count_loop-Good (suc fuel) memories counter t m good = elim (List-cases t.trace_list) [
    | inl e ↦ subst Good (sym (count_loop-nil fuel heap memories wanted counter t e)) (good, tt)
    | inr (thing, rest, e) ↦
        subst Good (sym (count_loop-cons fuel heap memories wanted counter t thing rest e)) (
          count_loop-Good fuel memories _ _ m
            (notify_each-good memories _ (heap.children thing) m good))
  ]
