-- ===== src/Dso.antt =====
-- The loading of shared objects of src/jsdso.cpp: the table of handles that scripts name by number,
-- the search for a library, and the calls of its functions.
pub mod Ownership
pub mod Table
use sysjs.Host.{
  Engine, JsVal, Outcome, cannot_load, fault, int, jsval_to_int, load_returned_error, no_free_slot,
  no_load_symbol, out_of_range, returned, thrown, unused, usage, void, wrong_count,
}
use sysjs.Prelude.{
  Bool, List, Option, [], if◌then◌else◌, leb, length, ltb, negsuc, none, pos, some, store, suc,
  zero, ℕ, ℤ, ◌++◌, ◌+◌, ◌==◌, ◌∷◌,
}

-- A handle of dlopen(3), 0 for NULL.
abbrev pub Slots : Type 0
Slots = ℕ → ℕ

-- `sizeof(dso_handle)/sizeof(dso_handle[0])`
abbrev pub slot_count : ℕ
slot_count = 10000

abbrev pub path_max : ℕ
path_max = 4096

-- What the dynamic loader and the libraries answer: the handle for a path, whether a symbol is
-- found, and what the function returns. A library's function is taken to load and unload nothing
-- itself.
pub record Loader : Type 0 where
  pub open_path : List ℕ → ℕ
  pub has_load : ℕ → Bool
  pub has_unload : ℕ → Bool
  pub run_load : ℕ → Bool
  pub run_unload : ℕ → Bool

pub data DsoCall : Type 0 where
  dl_opened dl_closed ran_load ran_unload : ℕ → DsoCall

pub record Dso : Type 0 where
  pub slots : Slots
  pub calls : List DsoCall

-- `static void *dso_handle[10000]`, which starts as NULL.
abbrev pub no_dso : Dso
no_dso = record { slots = λ j. 0; calls = [] }

abbrev note : DsoCall → Dso → Dso
note c d = record d { calls = c ∷ d.calls }

abbrev set_slot : ℕ → ℕ → Dso → Dso
set_slot id handle d = record d { slots = store d.slots id handle }

-- What stands before and after the name in `lib_pattern`.
abbrev pub Pattern : Type 0
Pattern = List ℕ × List ℕ

abbrev lib_bytes : List ℕ
lib_bytes = 108 ∷ 105 ∷ 98 ∷ []

abbrev pub so_bytes : List ℕ
so_bytes = 46 ∷ 115 ∷ 111 ∷ []

abbrev pub js_so_bytes : List ℕ
js_so_bytes = 95 ∷ 106 ∷ 115 ∷ so_bytes

abbrev pub dot_0_bytes : List ℕ
dot_0_bytes = 46 ∷ 48 ∷ []

abbrev lib_dir_bytes : List ℕ
lib_dir_bytes = lib_bytes ++ 47 ∷ lib_bytes

abbrev pub lib_pattern : List Pattern
lib_pattern =
    ([], [])
    ∷ (lib_bytes, so_bytes)
    ∷ (lib_bytes, so_bytes ++ dot_0_bytes)
    ∷ (lib_bytes, js_so_bytes)
    ∷ (lib_bytes, js_so_bytes ++ dot_0_bytes)
    ∷ (lib_dir_bytes, so_bytes)
    ∷ (lib_dir_bytes, js_so_bytes)
    ∷ (46 ∷ lib_bytes ++ 115 ∷ 47 ∷ lib_bytes, js_so_bytes ++ dot_0_bytes)
    ∷ []

-- `sprintf(buf, lib_pattern[i], filename)`
abbrev pub path_of : List ℕ → Pattern → List ℕ
path_of name p = p.0 ++ name ++ p.1

-- The first slot from `id` on that is NULL, of the `n` that are left. With none, the loop reads
-- `dso_handle[10000]`, which is outside the table, before it looks at the bound.
pub free_slot : Slots → ℕ → ℕ → Option ℕ
free_slot slots zero id = none
free_slot slots (suc n) id =
    let later = free_slot slots n (id + 1) in if slots id == 0 then some id else later

pub data Search : Type 0 where
  loaded : ℕ → Search
  not_loaded overrun : Search

-- The patterns are tried in turn until a path opens; `buf` has room for `path_max` bytes.
pub search_for : Loader → List ℕ → List Pattern → Search
search_for loader name [] = not_loaded
search_for loader name (p ∷ ps) =
    let later = search_for loader name ps in
    let handle = loader.open_path (path_of name p) in
    if ltb (length (path_of name p)) path_max
    then if handle == 0 then later else loaded handle
    else overrun

-- With a handle: `js_DSO_load` is resolved and called, and the handle stored.
pub start : Loader → ℕ → ℕ → Dso → Outcome Dso
start loader id handle d =
    let opened_dso = note (dl_opened handle) d in
    let ran = note (ran_load handle) opened_dso in
    if loader.has_load handle
    then if loader.run_load handle
      then returned (int (pos id)) (set_slot id handle ran)
      else thrown load_returned_error (note (dl_closed handle) ran)
    else thrown no_load_symbol (note (dl_closed handle) opened_dso)

abbrev pub load_found : Loader → ℕ → Dso → Search → Outcome Dso
unfolding start
load_found loader id d overrun = fault
load_found loader id d not_loaded = thrown cannot_load d
load_found loader id d (loaded handle) = start loader id handle d

abbrev pub load_at : Loader → List ℕ → Dso → Option ℕ → Outcome Dso
unfolding search_for
load_at loader name d none = fault
load_at loader name d (some id) =
    if id == slot_count
    then thrown no_free_slot d
    else load_found loader id d (search_for loader name lib_pattern)

-- The value returned is `*idp`.
pub js_dso_load : Loader → List ℕ → Dso → Outcome Dso
unfolding free_slot
js_dso_load loader name d = load_at loader name d (free_slot d.slots slot_count 0)

-- Where the library's function fails, the message is formatted with `idx`, which is never set.
pub finish_unload : Loader → ℕ → ℕ → Dso → Outcome Dso
finish_unload loader id handle d =
    let ran = note (ran_unload handle) d in
    if handle == 0
    then thrown unused d
    else if loader.has_unload handle
    then if loader.run_unload handle
      then returned void (set_slot id 0 (note (dl_closed handle) ran))
      else fault
    else returned void (set_slot id 0 (note (dl_closed handle) d))

pub js_dso_unload : Loader → ℤ → Dso → Outcome Dso
unfolding finish_unload
js_dso_unload loader (negsuc n) d = thrown out_of_range d
js_dso_unload loader (pos id) d =
    if leb slot_count id then thrown out_of_range d else finish_unload loader id (d.slots id) d

-- The two methods of the class DSO.
abbrev pub dso_load : Engine → Loader → List JsVal → Dso → Outcome Dso
unfolding js_dso_load
dso_load engine loader [] d = thrown usage d
dso_load engine loader (v ∷ []) d = js_dso_load loader (engine.to_bytes v) d
dso_load engine loader (v ∷ w ∷ args) d = thrown (wrong_count (2 + length args)) d

abbrev pub dso_unload : Engine → Loader → List JsVal → Dso → Outcome Dso
unfolding js_dso_unload
dso_unload engine loader [] d = thrown usage d
dso_unload engine loader (v ∷ []) d = js_dso_unload loader (jsval_to_int engine v) d
dso_unload engine loader (v ∷ w ∷ args) d = thrown (wrong_count (2 + length args)) d
