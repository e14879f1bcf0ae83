-- ===== src/Dso/Table.antt =====
-- The table of handles of src/jsdso.cpp: which slot a load takes, and what an unload gives back.
use sysjs.Dso.{
  Dso, Loader, Pattern, Slots, dot_0_bytes, finish_unload, free_slot, js_dso_load, js_dso_unload,
  js_so_bytes, lib_pattern, load_at, load_found, loaded, not_loaded, path_max, path_of, search_for,
  slot_count, so_bytes, start,
}
use sysjs.Host.{Ensures, JsVal, Returns, fault, int, void}
use sysjs.Prelude.{
  Bool-cases, List, [], ap, arith, fun_ext, inl, inr, length, length-append, lt→ltb, lt→not_leb,
  ne→not_==, none, pos, refl, some, store, suc, true, zero, ℕ, ◌++◌, ◌+◌, ◌<◌, ◌==◌, ◌∷◌, ◌≡◌, ◌≢◌,
  ◌≤◌, ◌⊎◌,
}

pub free_slot-first :
    (slots : Slots) (n id k : ℕ)
    → free_slot slots n id ≡ some k
    → (id ≤ k) × (k < id + n) × (slots k ≡ 0) × ((j : ℕ) → id ≤ j → j < k → slots j ≢ 0)
unfolding free_slot
free_slot-first slots zero id k h = absurd (ground (arith, h))
free_slot-first slots (suc n) id k h = elim (Bool-cases (slots id == 0)) [
  | inl free ↦ ground (arith, h, free)
  | inr busy ↦
      let rest = free_slot-first slots n (id + 1) k (ground (arith, h, busy)) in
      (
        omega (arith, rest),
        omega (arith, rest),
        rest.2,
        λ j ge lt. ground (arith, busy, rest.3 j, ge, lt),
      )
]

free_slot-total :
    (slots : Slots) (n id k : ℕ)
    → id ≤ k
    → k < id + n
    → slots k ≡ 0
    → (j : ℕ) × (free_slot slots n id ≡ some j)
unfolding free_slot
free_slot-total slots zero id k ge lt e = absurd (omega arith)
free_slot-total slots (suc n) id k ge lt e = elim (Bool-cases (slots id == 0)) [
  | inl free ↦ (id, rw free refl)
  | inr busy ↦
      let rest = free_slot-total slots n (id + 1) k (ground (arith, busy, e, ge)) (omega arith) e in
      (rest.0, rw busy rest.1)
]

free_slot-none :
    (slots : Slots) (n id : ℕ)
    → ((j : ℕ) → id ≤ j → j < id + n → slots j ≢ 0)
    → free_slot slots n id ≡ none
unfolding free_slot
free_slot-none slots zero id full = refl
free_slot-none slots (suc n) id full =
    rw (ne→not_== (slots id) 0 (full id (omega arith) (omega arith)))
      (free_slot-none slots n (id + 1) (λ j ge lt. full j (omega arith) (omega arith)))

-- The paths that are formatted fit into the buffer.
abbrev AllShort : List ℕ → List Pattern → Type 0
AllShort name [] = Unit {0}
AllShort name (p ∷ ps) = (length (path_of name p) < path_max) × AllShort name ps

search_for-outcome :
    (loader : Loader) (name : List ℕ) (ps : List Pattern)
    → AllShort name ps
    → (search_for loader name ps ≡ not_loaded)
      ⊎ ((handle : ℕ) × (search_for loader name ps ≡ loaded handle) × (handle ≢ 0))
unfolding search_for
search_for-outcome loader name [] short = inl refl
search_for-outcome loader name (p ∷ ps) short =
    let fits = lt→ltb (length (path_of name p)) path_max short.0 in
    let handle = loader.open_path (path_of name p) in
    elim (Bool-cases (handle == 0)) [
      | inl fails ↦ rw (fits, fails) (search_for-outcome loader name ps short.1)
      | inr hit_path ↦ inr (handle, rw (fits, hit_path) refl, ground (arith, hit_path))
    ]

lib_pattern-AllShort : (name : List ℕ) → length name + 17 < path_max → AllShort name lib_pattern
lib_pattern-AllShort name h =
    let append = λ (suffix : List ℕ). length-append name suffix in
    (
      omega (arith, append [], h),
      (
        omega (arith, append so_bytes, h),
        (
          omega (arith, append (so_bytes ++ dot_0_bytes), h),
          (
            omega (arith, append js_so_bytes, h),
            (
              omega (arith, append (js_so_bytes ++ dot_0_bytes), h),
              (
                omega (arith, append so_bytes, h),
                (
                  omega (arith, append js_so_bytes, h),
                  (omega (arith, append (js_so_bytes ++ dot_0_bytes), h), tt),
                ),
              ),
            ),
          ),
        ),
      ),
    )

-- What a load does to the table: the handle stands in the first free slot, whose number is
-- returned.
pub record Takes (d : Dso) (v : JsVal) (d' : Dso) : Type 0 where
  pub id : ℕ
  pub handle : ℕ
  pub named : v ≡ int (pos id)
  pub inside : id < slot_count
  pub was_free : d.slots id ≡ 0
  pub first : (j : ℕ) → j < id → d.slots j ≢ 0
  pub is_open : handle ≢ 0
  pub stored : d'.slots ≡ store d.slots id handle

start-Takes :
    (loader : Loader) (id handle : ℕ) (d : Dso)
    → id < slot_count
    → d.slots id ≡ 0
    → ((j : ℕ) → j < id → d.slots j ≢ 0)
    → handle ≢ 0
    → Ensures (Takes d) (λ e d'. d'.slots ≡ d.slots) (start loader id handle d)
unfolding start
start-Takes loader id handle d lt free first nonzero = elim (Bool-cases (loader.has_load handle)) [
  | inr missing ↦ rw missing refl
  | inl there ↦ elim (Bool-cases (loader.run_load handle)) [
    | inr fails ↦ rw (there, fails) refl
    | inl runs ↦
        rw (there, runs)
          (record {
            id = id;
            handle = handle;
            named = refl;
            inside = lt;
            was_free = free;
            first = first;
            is_open = nonzero;
            stored = refl;
          })
  ]
]

-- Where a slot is free and the name leaves room for the longest pattern, a load ends defined: it
-- returns the number of the first free slot, in which a handle now stands, or it throws and the
-- table is as it was.
pub js_dso_load-Takes :
    (loader : Loader) (name : List ℕ) (d : Dso) (free : ℕ)
    → free < slot_count
    → d.slots free ≡ 0
    → length name + 17 < path_max
    → Ensures (Takes d) (λ e d'. d'.slots ≡ d.slots) (js_dso_load loader name d)
unfolding js_dso_load load_at load_found
js_dso_load-Takes loader name d free lt e short =
    let found = free_slot-total d.slots slot_count 0 free (omega arith) (omega (arith, lt)) e in
    let is_first = free_slot-first d.slots slot_count 0 found.0 found.1 in
    let inside : found.0 < slot_count = omega (arith, is_first) in
    rw (found.1, ne→not_== found.0 slot_count (omega (arith, inside)))
      (elim (search_for-outcome loader name lib_pattern (lib_pattern-AllShort name short)) [
        | inl none_opens ↦ rw none_opens refl
        | inr hit ↦ rw hit.1 (
            start-Takes loader found.0 hit.0 d inside is_first.2
              (λ j below. is_first.3 j (omega arith) below) hit.2)
      ])

-- With every slot taken a load is undefined: the loop reads outside the table, and the error that
-- the code has for this is never reported.
pub js_dso_load-full :
    (loader : Loader) (name : List ℕ) (d : Dso)
    → ((j : ℕ) → j < slot_count → d.slots j ≢ 0)
    → js_dso_load loader name d ≡ fault
unfolding js_dso_load load_at load_found
js_dso_load-full loader name d full =
    rw (free_slot-none d.slots slot_count 0 (λ j ge lt. full j (omega (arith, lt)))) refl

-- Storing NULL again gives the table from before.
restored : (d d' : Dso) (v : JsVal) (taken : Takes d v d') → store d'.slots taken.id 0 ≡ d.slots
restored d d' v taken = fun_ext (λ j. ground (arith, ap (λ s. s j) taken.stored, taken.was_free))

finish_unload-slots :
    (loader : Loader) (id handle : ℕ) (d : Dso) (slots : Slots)
    → ((h : ℕ) → loader.run_unload h ≡ true)
    → handle ≢ 0
    → store d.slots id 0 ≡ slots
    → Returns void (λ d'. d'.slots ≡ slots) (finish_unload loader id handle d)
unfolding finish_unload
finish_unload-slots loader id handle d slots runs nonzero e =
    rw (ne→not_== handle 0 nonzero) (elim (Bool-cases (loader.has_unload handle)) [
      | inl there ↦ rw (there, runs handle) (refl, e)
      | inr missing ↦ rw missing (refl, e)
    ])

-- Where the libraries' unload functions succeed, an unload of the number that a load returned gives
-- the table from before the load.
pub js_dso_unload-js_dso_load :
    (loader : Loader) (d d' : Dso) (v : JsVal)
    → ((handle : ℕ) → loader.run_unload handle ≡ true)
    → (taken : Takes d v d')
    → Returns void (λ d''. d''.slots ≡ d.slots) (js_dso_unload loader (pos taken.id) d')
unfolding js_dso_unload
js_dso_unload-js_dso_load loader d d' v runs taken =
    rw (lt→not_leb slot_count taken.id taken.inside) (
      finish_unload-slots loader taken.id (d'.slots taken.id) d' d.slots runs
        (ground (arith, ap (λ s. s taken.id) taken.stored, taken.is_open)) (restored d d' v taken))
