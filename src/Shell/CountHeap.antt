-- ===== src/Shell/CountHeap.antt =====
-- `CountHeap` and `CountHeapNotify` of src/js.cpp: the things of the garbage collected heap that a
-- start reaches, counted with a list of the things to trace, a table of those seen, and a list of
-- nodes to be used again. Things are numbers; what JS_TraceChildren finds in a thing is the heap's.
pub mod Tracing
pub mod Counting
use sysjs.Prelude.{
  Bool, List, Option, [], false, if◌then◌else◌, none, not, some, suc, true, update, zero, ℕ, ◌&&◌,
  ◌==◌, ◌∷◌,
}
use sysjs.Shell.Scatter.Setup.Counts.{roots}

pub data ThingKind : Type 0 where
  object_thing double_thing string_thing xml_thing : ThingKind

-- The heap: what JS_TraceRuntime and JS_TraceChildren hand to the callback, and each thing's kind.
pub record Heap : Type 0 where
  pub roots : List ℕ
  pub children : ℕ → List ℕ
  pub kind : ℕ → ThingKind

-- Whether JS_DHashTableOperate and JS_malloc succeed: for a thing to be entered, and with so many
-- nodes allocated before.
pub record Memories : Type 0 where
  pub starts_table : Bool
  pub enters : ℕ → Bool
  pub allocates_node : ℕ → Bool

-- `JSCountHeapTracer`; of the list of nodes to be used again only its length matters.
pub record Tracer : Type 0 where
  pub ok : Bool
  pub visited : ℕ → Bool
  pub trace_list : List ℕ
  pub recycled : ℕ
  pub allocated : ℕ

-- A node for a thing that is new in the table, used again or allocated.
abbrev pub count_node : Memories → ℕ → Tracer → ℕ → Tracer
count_node memories thing t zero =
    if memories.allocates_node t.allocated
    then record t { trace_list = thing ∷ t.trace_list; allocated = suc t.allocated }
    else record t { ok = false }
count_node memories thing t (suc k) = record t { trace_list = thing ∷ t.trace_list; recycled = k }

pub count_notify : Memories → Tracer → ℕ → Tracer
count_notify memories t thing =
    if not t.ok
    then t
    else if not (memories.enters thing)
    then record t { ok = false }
    else if t.visited thing
    then t
    else count_node memories thing (record t { visited = update t.visited thing true }) t.recycled

-- The callback for each of the things that are found, in their order.
pub notify_each : Memories → Tracer → List ℕ → Tracer
unfolding count_notify
notify_each memories t [] = t
notify_each memories t (c ∷ cs) = notify_each memories (count_notify memories t c) cs

abbrev same_kind : ThingKind → ThingKind → Bool
same_kind object_thing object_thing = true
same_kind double_thing double_thing = true
same_kind string_thing string_thing = true
same_kind xml_thing xml_thing = true
same_kind _ _ = false

-- `traceKind == -1 || node->kind == traceKind`, with `none` for -1.
abbrev pub is_wanted : Option ThingKind → ThingKind → Bool
is_wanted none k = true
is_wanted (some wanted) k = same_kind k wanted

-- The loop over the list of things to trace: the counter and the tracer at its end.
pub count_loop : ℕ → Heap → Memories → (ThingKind → Bool) → ℕ → Tracer → Option (ℕ × Tracer)
unfolding notify_each
count_loop zero heap memories wanted counter t = none
count_loop (suc fuel) heap memories wanted counter t = elim t.trace_list [
  | [] ↦ some (counter, t)
  | thing ∷ rest ↦
      count_loop fuel heap memories wanted
        (if wanted (heap.kind thing) then suc counter else counter)
        (notify_each memories (record t { trace_list = rest; recycled = suc t.recycled })
          (heap.children thing))
]

abbrev pub empty_tracer : Tracer
empty_tracer = record {
  ok = true;
  visited = λ i. false;
  trace_list = [];
  recycled = 0;
  allocated = 0;
}

-- What is counted; an error that is reported or left pending; or
-- no fuel.
pub data Counted : Type 0 where
  counted : ℕ → Counted
  not_a_thing unknown_kind unconvertible out_of_memory count_unfinished : Counted

abbrev pub counted_of : Option (ℕ × Tracer) → Counted
counted_of none = count_unfinished
counted_of (some (counter, t)) = if t.ok then counted counter else out_of_memory

-- From the table on, for a heap of `n` things: every round takes a thing that is then never met
-- again.
pub count_from : ℕ → Heap → Memories → (ThingKind → Bool) → List ℕ → Counted
unfolding count_loop notify_each
count_from n heap memories wanted start_things =
    if memories.starts_table
    then counted_of
        (count_loop (suc n) heap memories wanted 0 (notify_each memories empty_tracer start_things))
    else out_of_memory

-- The first argument: not given, null, a thing of the heap, or another value.
pub data StartArgument : Type 0 where
  no_argument null_argument other_argument : StartArgument
  thing_argument : ℕ → StartArgument

-- The second argument: not given, not to be made a string, or the bytes of a name.
pub data KindArgument : Type 0 where
  no_kind unconvertible_kind : KindArgument
  kind_named : List ℕ → KindArgument

abbrev equal_bytes : List ℕ → List ℕ → Bool
equal_bytes [] [] = true
equal_bytes (x ∷ xs) (y ∷ ys) = (x == y) && equal_bytes xs ys
equal_bytes _ _ = false

-- `traceKindNames`: all, object, double, string, xml.
abbrev pub kind_names : List (List ℕ × Option ThingKind)
kind_names =
    (97 ∷ 108 ∷ 108 ∷ [], none)
    ∷ (111 ∷ 98 ∷ 106 ∷ 101 ∷ 99 ∷ 116 ∷ [], some object_thing)
    ∷ (100 ∷ 111 ∷ 117 ∷ 98 ∷ 108 ∷ 101 ∷ [], some double_thing)
    ∷ (115 ∷ 116 ∷ 114 ∷ 105 ∷ 110 ∷ 103 ∷ [], some string_thing)
    ∷ (120 ∷ 109 ∷ 108 ∷ [], some xml_thing)
    ∷ []

abbrev pub find_kind : List ℕ → List (List ℕ × Option ThingKind) → Option (Option ThingKind)
find_kind bytes [] = none
find_kind bytes ((name, k) ∷ names) =
    if equal_bytes bytes name then some k else find_kind bytes names

abbrev count_kind : ℕ → Heap → Memories → List ℕ → KindArgument → Counted
unfolding count_from
count_kind n heap memories start_things no_kind =
    count_from n heap memories (is_wanted none) start_things
count_kind n heap memories start_things unconvertible_kind = unconvertible
count_kind n heap memories start_things (kind_named bytes) = elim (find_kind bytes kind_names) [
  | none ↦ unknown_kind
  | some k ↦ count_from n heap memories (is_wanted k) start_things
]

abbrev pub count_heap : ℕ → Heap → Memories → StartArgument → KindArgument → Counted
unfolding count_kind
count_heap n heap memories no_argument k = count_kind n heap memories heap.roots no_kind
count_heap n heap memories null_argument k = count_kind n heap memories heap.roots k
count_heap n heap memories other_argument k = not_a_thing
count_heap n heap memories (thing_argument thing) k = count_kind n heap memories (thing ∷ []) k
