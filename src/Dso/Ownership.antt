-- ===== src/Dso/Ownership.antt =====
-- The handles that src/jsdso.cpp keeps: each library that is open is in the table.
use sysjs.Dso.{
  Dso, DsoCall, Loader, Pattern, Search, Slots, dl_closed, dl_opened, finish_unload, free_slot,
  js_dso_load, js_dso_unload, lib_pattern, load_at, load_found, loaded, no_dso, not_loaded, overrun,
  search_for, slot_count, start,
}
use sysjs.Dso.Table.{free_slot-first}
use sysjs.Host.{Outcome, returned, thrown}
use sysjs.Prelude.{
  Bool-cases, List, Option, [], arith, if◌then◌else◌, inl, inr, leb, negsuc, ne→not_==, none, pos,
  refl, some, store, suc, zero, ℕ, ℤ, ◌+◌, ◌<◌, ◌==◌, ◌∷◌, ◌≡◌, ◌≢◌, ◌≤◌,
}

-- The slots in use, of the first `n`.
pub used : ℕ → Slots → ℕ
used zero slots = 0
used (suc n) slots = let below = used n slots in if slots n == 0 then below else suc below

abbrev dl_opens : List DsoCall → ℕ
dl_opens [] = 0
dl_opens (dl_opened h ∷ calls) = suc (dl_opens calls)
dl_opens (c ∷ calls) = dl_opens calls

abbrev dl_closes : List DsoCall → ℕ
dl_closes [] = 0
dl_closes (dl_closed h ∷ calls) = suc (dl_closes calls)
dl_closes (c ∷ calls) = dl_closes calls

-- Of the handles opened, those not closed are as many as the slots in use.
abbrev pub Owned : Dso → Type 0
Owned d = dl_opens d.calls ≡ dl_closes d.calls + used slot_count d.slots

-- `P` holds of the state that a call leaves, where it ends defined.
abbrev pub Leaves : (Dso → Type 0) → Outcome Dso → Type 0
Leaves P (returned v d) = P d
Leaves P (thrown e d) = P d
Leaves P o = Unit

used-empty : (n : ℕ) → used n (λ j. 0) ≡ 0
unfolding used
used-empty zero = refl
used-empty (suc n) = used-empty n

-- At the start of the program the table is empty.
pub no_dso-Owned : Owned no_dso
no_dso-Owned = ground (arith, used-empty slot_count)

used-store_outside :
    (n id h : ℕ) (slots : Slots) → n ≤ id → used n (store slots id h) ≡ used n slots
unfolding used
used-store_outside zero id h slots le = refl
used-store_outside (suc n) id h slots le =
    ground (arith, used-store_outside n id h slots (omega arith))

used-store :
    (n id h : ℕ) (slots : Slots)
    → id < n
    → slots id ≡ 0
    → h ≢ 0
    → used n (store slots id h) ≡ suc (used n slots)
unfolding used
used-store zero id h slots lt free nonzero = absurd (omega arith)
used-store (suc n) id h slots lt free nonzero = elim (Bool-cases (id == n)) [
  | inl top ↦
      ground (arith, top, used-store_outside n id h slots (ground (arith, top)), free, nonzero)
  | inr under ↦
      ground (arith, under, used-store n id h slots (ground (arith, under, lt)) free nonzero)
]

used-release :
    (n id : ℕ) (slots : Slots)
    → id < n
    → slots id ≢ 0
    → suc (used n (store slots id 0)) ≡ used n slots
unfolding used
used-release zero id slots lt taken = absurd (omega arith)
used-release (suc n) id slots lt taken = elim (Bool-cases (id == n)) [
  | inl top ↦ ground (arith, top, used-store_outside n id 0 slots (ground (arith, top)), taken)
  | inr under ↦ ground (arith, under, used-release n id slots (ground (arith, under, lt)) taken)
]

search_for-nonzero :
    (loader : Loader) (name : List ℕ) (ps : List Pattern) (h : ℕ)
    → search_for loader name ps ≡ loaded h
    → h ≢ 0
unfolding search_for
search_for-nonzero loader name [] h e = ground (arith, e)
search_for-nonzero loader name (p ∷ ps) h e = ground (arith, e, search_for-nonzero loader name ps h)

start-Owned :
    (loader : Loader) (id handle : ℕ) (d : Dso)
    → id < slot_count
    → d.slots id ≡ 0
    → handle ≢ 0
    → Owned d
    → Leaves Owned (start loader id handle d)
unfolding start
start-Owned loader id handle d lt free nonzero owned =
    let one_more = used-store slot_count id handle d.slots lt free nonzero in
    elim (Bool-cases (loader.has_load handle)) [
      | inr missing ↦ rw missing (omega (arith, owned))
      | inl there ↦ elim (Bool-cases (loader.run_load handle)) [
        | inr fails ↦ rw (there, fails) (omega (arith, owned))
        | inl runs ↦ rw (there, runs) (omega (arith, owned, one_more))
      ]
    ]

load_found-Owned :
    (loader : Loader) (id : ℕ) (d : Dso) (search : Search)
    → ((h : ℕ) → search ≡ loaded h → h ≢ 0)
    → id < slot_count
    → d.slots id ≡ 0
    → Owned d
    → Leaves Owned (load_found loader id d search)
unfolding load_found
load_found-Owned loader id d overrun nonzero lt free owned = tt
load_found-Owned loader id d not_loaded nonzero lt free owned = owned
load_found-Owned loader id d (loaded handle) nonzero lt free owned =
    start-Owned loader id handle d lt free (nonzero handle refl) owned

load_at-Owned :
    (loader : Loader) (name : List ℕ) (d : Dso) (slot : Option ℕ)
    → free_slot d.slots slot_count 0 ≡ slot
    → Owned d
    → Leaves Owned (load_at loader name d slot)
unfolding load_at
load_at-Owned loader name d none found owned = tt
load_at-Owned loader name d (some id) found owned =
    let is_first = free_slot-first d.slots slot_count 0 id found in
    let inside : id < slot_count = omega (arith, is_first) in
    rw (ne→not_== id slot_count (omega (arith, inside))) (
      load_found-Owned loader id d (search_for loader name lib_pattern)
        (search_for-nonzero loader name lib_pattern) inside is_first.2 owned)

-- A load that ends defined, on every branch, keeps as many handles open as it keeps in the table,
-- where this holds before: a library whose load function is missing or fails is closed again.
pub js_dso_load-Owned :
    (loader : Loader) (name : List ℕ) (d : Dso) → Owned d → Leaves Owned (js_dso_load loader name d)
unfolding js_dso_load
js_dso_load-Owned loader name d owned =
    load_at-Owned loader name d (free_slot d.slots slot_count 0) refl owned

finish_unload-Owned :
    (loader : Loader) (id : ℕ) (d : Dso)
    → id < slot_count
    → Owned d
    → Leaves Owned (finish_unload loader id (d.slots id) d)
unfolding finish_unload
finish_unload-Owned loader id d lt owned = elim (Bool-cases (d.slots id == 0)) [
  | inl free ↦ rw free owned
  | inr taken ↦
      let one_less = used-release slot_count id d.slots lt (ground (arith, taken)) in
      elim (Bool-cases (loader.has_unload (d.slots id))) [
        | inr missing ↦ rw (taken, missing) (omega (arith, owned, one_less))
        | inl there ↦ elim (Bool-cases (loader.run_unload (d.slots id))) [
          | inr fails ↦ rw (taken, there, fails) tt
          | inl runs ↦ rw (taken, there, runs) (omega (arith, owned, one_less))
        ]
      ]
]

-- An unload of any number that ends defined, on every branch, keeps as many handles open as it
-- keeps in the table, where this holds before: a library that is closed gives its slot back.
pub js_dso_unload-Owned :
    (loader : Loader) (id : ℤ) (d : Dso) → Owned d → Leaves Owned (js_dso_unload loader id d)
unfolding js_dso_unload
js_dso_unload-Owned loader (negsuc n) d owned = owned
js_dso_unload-Owned loader (pos id) d owned = elim (Bool-cases (leb slot_count id)) [
  | inl outside ↦ rw outside owned
  | inr inside ↦ rw inside (finish_unload-Owned loader id d (ground (arith, inside)) owned)
]
