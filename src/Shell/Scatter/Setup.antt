-- ===== src/Shell/Scatter/Setup.antt =====
-- `Scatter` of src/js.cpp around its threads: what it takes before them, a step at a time, and what it
-- gives back at its labels `out` and `fail` in whichever state it comes there. A loop is written as
-- its last round after the rounds before.
pub mod Counts
pub mod Balance
use sysjs.Prelude.{
  Bool, List, Option, [], false, if◌then◌else◌, none, some, suc, true, update, zero, ℕ, ◌∷◌,
}

-- The lock, the condition variable, the two blocks, the roots of the results and of the functions,
-- and the contexts of the threads.
pub data Resource : Type 0 where
  lock_of_scatter condition results_block threads_block : Resource
  result_root function_root context_of : ℕ → Resource

-- What is called, the newest first: PR_NewLock and PR_DestroyLock, malloc and free, JS_AddRoot and
-- JS_RemoveRoot, JS_NewContext and JS_DestroyContext.
pub data Change : Type 0 where
  takes gives_back : Resource → Change

-- What NSPR and the engine answer, for thread or function `i` where there is one: the length of the
-- array, which calls succeed, how the machine of the threads ends, and whether the array of the
-- results is made.
pub record Answers : Type 0 where
  pub array_length : Option ℕ
  pub makes_lock : Bool
  pub makes_condition : Bool
  pub allocates_results : Bool
  pub roots_result : ℕ → Bool
  pub allocates_threads : Bool
  pub roots_function : ℕ → Bool
  pub has_element : ℕ → Bool
  pub makes_context : ℕ → Bool
  pub threads_end : Bool
  pub makes_array : Bool

-- The pointers of `ScatterData` that are not NULL, and for which threads `cx` is not.
pub record ScatterData : Type 0 where
  pub lock : Bool
  pub cvar : Bool
  pub results : Bool
  pub threads : Bool
  pub cx : ℕ → Bool

abbrev pub nothing_held : ScatterData
nothing_held = record {
  lock = false;
  cvar = false;
  results = false;
  threads = false;
  cx = λ i. false;
}

-- `while (i-- > 0) JS_RemoveRoot(...)`
pub unroot_below : (ℕ → Resource) → ℕ → List Change → List Change
unroot_below root zero calls = calls
unroot_below root (suc i) calls = unroot_below root i (gives_back (root i) ∷ calls)

-- How a loop ends: with all its rounds made, or with what was rooted taken back.
pub data Loop : Type 0 where
  through broken : List Change → Loop

-- A round of the loop that roots the results, after the rounds before.
pub root_result : Answers → ℕ → Loop → Loop
unfolding unroot_below
root_result answers i (broken c) = broken c
root_result answers i (through c) =
    if answers.roots_result i
    then through (takes (result_root i) ∷ c)
    else broken (unroot_below result_root i c)

pub root_results : Answers → ℕ → List Change → Loop
unfolding root_result
root_results answers zero calls = through calls
root_results answers (suc i) calls = root_result answers i (root_results answers i calls)

-- A round of the loop that roots the functions and reads them from the array.
pub root_function : Answers → ℕ → Loop → Loop
unfolding unroot_below
root_function answers i (broken c) = broken c
root_function answers i (through c) =
    let rooted = takes (function_root i) ∷ c in
    if answers.roots_function i
    then if answers.has_element i
      then through rooted
      else broken (unroot_below function_root i (gives_back (function_root i) ∷ rooted))
    else broken (unroot_below function_root i c)

pub root_functions : Answers → ℕ → List Change → Loop
unfolding root_function
root_functions answers zero calls = through calls
root_functions answers (suc i) calls = root_function answers i (root_functions answers i calls)

-- A round of the loop that makes the contexts: whether all were made, which were, and the calls.
pub make_context : Answers → ℕ → Bool × (ℕ → Bool) × List Change → Bool × (ℕ → Bool) × List Change
make_context answers i (false, cx, c) = (false, cx, c)
make_context answers i (true, cx, c) =
    if answers.makes_context i
    then (true, update cx i true, takes (context_of i) ∷ c)
    else (false, cx, c)

-- The contexts of the threads 1 to `m`.
pub make_contexts : Answers → ℕ → List Change → Bool × (ℕ → Bool) × List Change
unfolding make_context
make_contexts answers zero calls = (true, (λ i. false), calls)
make_contexts answers (suc m) calls = make_context answers (suc m) (make_contexts answers m calls)

-- The loop at `out`.
pub release_threads : (ℕ → Bool) → ℕ → List Change → List Change
release_threads cx zero calls = calls
release_threads cx (suc i) calls =
    let c = gives_back (function_root i) ∷ release_threads cx i calls in
    if cx i then gives_back (context_of i) ∷ c else c

pub release_results : ℕ → List Change → List Change
release_results zero calls = calls
release_results (suc i) calls = gives_back (result_root i) ∷ release_results i calls

-- `out`
pub scatter_out : ℕ → ScatterData → List Change → List Change
unfolding release_threads release_results
scatter_out n sd calls =
    let c =
      if sd.threads then gives_back threads_block ∷ release_threads sd.cx n calls else calls in
    let d = if sd.results then gives_back results_block ∷ release_results n c else c in
    let e = if sd.cvar then gives_back condition ∷ d else d in
    if sd.lock then gives_back lock_of_scatter ∷ e else e

-- From the creation of the contexts on; the result tells whether the function succeeds.
pub scatter_contexts : Answers → ℕ → List Change → Bool × List Change
unfolding make_contexts scatter_out
scatter_contexts answers zero calls = (answers.makes_array, calls)
scatter_contexts answers (suc m) calls =
    let (all, cx, c) = make_contexts answers m calls in
    let sd : ScatterData = record {
      lock = true;
      cvar = true;
      results = true;
      threads = true;
      cx = cx;
    } in
    let after = scatter_out (suc m) sd c in
    (if all then if answers.threads_end then answers.makes_array else false else false, after)

-- Behind the loop that roots the functions, which frees the block of the threads where it breaks.
pub after_functions : Answers → ℕ → Loop → Bool × List Change
unfolding scatter_out scatter_contexts
after_functions answers n (through c) = scatter_contexts answers n c
after_functions answers n (broken c) =
    let sd : ScatterData = record {
      lock = true;
      cvar = true;
      results = true;
      threads = false;
      cx = λ i. false;
    } in
    (false, scatter_out n sd (gives_back threads_block ∷ c))

pub scatter_threads : Answers → ℕ → List Change → Bool × List Change
unfolding root_functions scatter_out after_functions
scatter_threads answers n calls =
    let sd : ScatterData = record {
      lock = true;
      cvar = true;
      results = true;
      threads = false;
      cx = λ i. false;
    } in
    if answers.allocates_threads
    then after_functions answers n (root_functions answers n (takes threads_block ∷ calls))
    else (false, scatter_out n sd calls)

-- Behind the loop that roots the results, which frees their block where it breaks.
pub after_results : Answers → ℕ → Loop → Bool × List Change
unfolding scatter_out scatter_threads
after_results answers n (through c) = scatter_threads answers n c
after_results answers n (broken c) =
    let sd : ScatterData = record {
      lock = true;
      cvar = true;
      results = false;
      threads = false;
      cx = λ i. false;
    } in
    (false, scatter_out n sd (gives_back results_block ∷ c))

pub scatter_results : Answers → ℕ → List Change → Bool × List Change
unfolding root_results scatter_out after_results
scatter_results answers n calls =
    let sd : ScatterData = record {
      lock = true;
      cvar = true;
      results = false;
      threads = false;
      cx = λ i. false;
    } in
    if answers.allocates_results
    then after_results answers n (root_results answers n (takes results_block ∷ calls))
    else (false, scatter_out n sd calls)

pub scatter_lock : Answers → ℕ → Bool × List Change
unfolding scatter_out scatter_results
scatter_lock answers zero = (answers.makes_array, scatter_out 0 nothing_held [])
scatter_lock answers (suc m) =
    let locked = record nothing_held { lock = true } in
    let calls = takes lock_of_scatter ∷ [] in
    if answers.makes_lock
    then if answers.makes_condition
      then scatter_results answers (suc m) (takes condition ∷ calls)
      else (false, scatter_out (suc m) locked calls)
    else (false, scatter_out (suc m) nothing_held [])

-- The whole function, for an argument that is an object, or is not.
pub scatter : Answers → Bool → Bool × List Change
unfolding scatter_out scatter_lock
scatter answers object_given =
    if object_given
    then elim answers.array_length [
      | none ↦ (false, scatter_out 0 nothing_held [])
      | some n ↦ scatter_lock answers n
    ]
    else (false, scatter_out 0 nothing_held [])
