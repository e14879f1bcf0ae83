-- ===== src/Shell/CountHeap/Tracing.antt =====
-- What `CountHeapNotify` (src/js.cpp) does to the tracer, and how often the loop of `CountHeap` goes
-- round.
use sysjs.Prelude.{
  Bool, Bool-cases, List, List-cases, Option, [], ap, arith, false, if◌then◌else◌, inl, inr, length,
  refl, some, subst, suc, sym, true, update, weight_below, weight_below-bound, weight_below-update,
  zero, ℕ, ◌+◌, ◌<◌, ◌∷◌, ◌≡◌, ◌≢◌, ◌≤◌, ◌⊎◌,
}
use sysjs.Shell.CountHeap.{
  Heap, Memories, ThingKind, Tracer, count_from, count_loop, count_node, count_notify,
  count_unfinished, counted_of, empty_tracer, notify_each,
}

-- One call of the callback: it changes nothing, fails, or puts a new thing on the list.
pub data Notified (memories : Memories) (c : ℕ) (t : Tracer) : Tracer → Type 0 where
  ignored : (t.ok ≡ false) ⊎ (t.visited c ≡ true) → Notified memories c t t
  refused_entry : memories.enters c ≡ false → Notified memories c t (record t { ok = false })
  refused_node :
      t.visited c ≡ false
      → memories.allocates_node t.allocated ≡ false
      → Notified memories c t (record t { ok = false; visited = update t.visited c true })
  pushed :
      (recycled allocated : ℕ)
      → t.ok ≡ true
      → t.visited c ≡ false
      → recycled + suc t.allocated ≡ t.recycled + allocated
      → Notified memories c t (record {
        ok = true;
        visited = update t.visited c true;
        trace_list = c ∷ t.trace_list;
        recycled = recycled;
        allocated = allocated;
      })

pushed_ok :
    (memories : Memories) (c : ℕ) (t : Tracer) (recycled allocated : ℕ)
    → t.ok ≡ true
    → t.visited c ≡ false
    → recycled + suc t.allocated ≡ t.recycled + allocated
    → Notified memories c t (record t {
      visited = update t.visited c true;
      trace_list = c ∷ t.trace_list;
      recycled = recycled;
      allocated = allocated;
    })
pushed_ok memories c t recycled allocated ok new nodes =
    subst
      (λ b. Notified memories c t (record {
        ok = b;
        visited = update t.visited c true;
        trace_list = c ∷ t.trace_list;
        recycled = recycled;
        allocated = allocated;
      }))
      (sym ok) (pushed recycled allocated ok new nodes)

count_node-Notified :
    (memories : Memories) (c : ℕ) (t : Tracer) (k : ℕ)
    → t.ok ≡ true
    → t.visited c ≡ false
    → t.recycled ≡ k
    → Notified memories c t
        (count_node memories c (record t { visited = update t.visited c true }) k)
count_node-Notified memories c t (suc k) ok new e =
    pushed_ok memories c t k t.allocated ok new (omega (arith, e))
count_node-Notified memories c t zero ok new e =
    elim (Bool-cases (memories.allocates_node t.allocated)) [
      | inl q ↦ rw q (pushed_ok memories c t t.recycled (suc t.allocated) ok new (omega arith))
      | inr q ↦ rw q (refused_node new q)
    ]

pub count_notify-Notified :
    (memories : Memories) (t : Tracer) (c : ℕ) → Notified memories c t (count_notify memories t c)
unfolding count_notify
count_notify-Notified memories t c = elim (Bool-cases t.ok) [
  | inr e ↦ simp e (ignored (inl e))
  | inl e ↦ elim (Bool-cases (memories.enters c)) [
    | inr q ↦ simp (e, q) (refused_entry q)
    | inl q ↦ elim (Bool-cases (t.visited c)) [
      | inl v ↦ simp (e, q, v) (ignored (inr v))
      | inr v ↦
          simp (e, q, v)
            (subst
              (λ b. Notified memories c t (
                count_node memories c (record t { ok = b; visited = update t.visited c true })
                  t.recycled))
              e (count_node-Notified memories c t t.recycled e v refl))
    ]
  ]
]

abbrev pub unmet_weight : Bool → ℕ
unmet_weight b = if b then 0 else 1

-- The things of the heap that were not met.
unfoldable pub unmet : ℕ → Tracer → ℕ
unmet n t = weight_below (λ _. unmet_weight) n t.visited

-- No call makes more work than it takes from what is left.
Notified-less :
    {memories : Memories} {c : ℕ} {t t' : Tracer} (n : ℕ)
    → c < n
    → Notified memories c t t'
    → unmet n t' + length t'.trace_list ≤ unmet n t + length t.trace_list
unfolding unmet
Notified-less n lt (ignored h) = omega arith
Notified-less n lt (refused_entry q) = omega arith
Notified-less {c = c} {t = t} n lt (refused_node new q) =
    let sum = weight_below-update (λ _. unmet_weight) n t.visited c true lt in
    omega (arith, sum, ap unmet_weight new)
Notified-less {c = c} {t = t} n lt (pushed r a ok new nodes) =
    let sum = weight_below-update (λ _. unmet_weight) n t.visited c true lt in
    omega (arith, sum, ap unmet_weight new)

-- All the things of a list are in a heap of `n` things.
unfoldable pub Below : ℕ → List ℕ → Type 0
Below n [] = Unit {0}
Below n (x ∷ xs) = (x < n) × Below n xs

pub notify_each-less :
    (memories : Memories) (n : ℕ) (t : Tracer) (cs : List ℕ)
    → Below n cs
    → unmet n (notify_each memories t cs) + length (notify_each memories t cs).trace_list
      ≤ unmet n t + length t.trace_list
unfolding notify_each Below
notify_each-less memories n t [] h = omega arith
notify_each-less memories n t (c ∷ cs) h =
    let first = Notified-less n h.0 (count_notify-Notified memories t c) in
    omega (arith, first, notify_each-less memories n (count_notify memories t c) cs h.1)

-- A heap of `n` things.
unfoldable pub InHeap : ℕ → Heap → Type 0
InHeap n heap = Below n heap.roots × ((x : ℕ) → Below n (heap.children x))

-- The loop ends.
pub count_loop-ends :
    (n fuel : ℕ) (heap : Heap) (memories : Memories) (wanted : ThingKind → Bool) (counter : ℕ)
    (t : Tracer)
    → InHeap n heap
    → unmet n t + length t.trace_list < fuel
    → (r : ℕ × Tracer) × (count_loop fuel heap memories wanted counter t ≡ some r)
unfolding count_loop InHeap unmet
count_loop-ends n zero heap memories wanted counter t h lt = absurd (omega arith)
count_loop-ends n (suc fuel) heap memories wanted counter t h lt = elim (List-cases t.trace_list) [
  | inl e ↦ rw e (_, refl)
  | inr (thing, rest, e) ↦ rw e (
      count_loop-ends n fuel heap memories wanted _ _ h (
        omega (
          arith,
          lt,
          ap length e,
          notify_each-less memories n (record t { trace_list = rest; recycled = suc t.recycled })
              (heap.children thing) (h.1 thing),
        )))
]

count_loop-finished :
    {o : Option (ℕ × Tracer)} → (r : ℕ × Tracer) × (o ≡ some r) → counted_of o ≢ count_unfinished
count_loop-finished ((k, t), e) =
    rw e (elim (Bool-cases t.ok) [ inl good ↦ simp good (λ q. cc) | inr bad ↦ simp bad (λ q. cc) ])

-- `CountHeap` comes to an end: in a heap of `n` things, and whichever calls find memory, its loop
-- never goes round more often than once for each thing and once more. It starts with things of the
-- heap.
pub count_from-ends :
    (n : ℕ) (heap : Heap) (memories : Memories) (wanted : ThingKind → Bool) (start_things : List ℕ)
    → InHeap n heap
    → Below n start_things
    → count_from n heap memories wanted start_things ≢ count_unfinished
unfolding count_from unmet
count_from-ends n heap memories wanted start_things h b = elim (Bool-cases memories.starts_table) [
  | inr e ↦ simp e (λ q. cc)
  | inl e ↦ simp e (
      count_loop-finished (
        count_loop-ends n (suc n) heap memories wanted 0
          (notify_each memories empty_tracer start_things) h
          (omega (
            arith,
            notify_each-less memories n empty_tracer start_things b,
            weight_below-bound (λ _. unmet_weight) n (λ i. false) (λ i. omega arith),
          ))))
]
