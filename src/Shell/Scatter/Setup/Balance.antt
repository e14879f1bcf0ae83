-- ===== src/Shell/Scatter/Setup/Balance.antt =====
-- `Scatter` (src/js.cpp) gives back what it takes.
use sysjs.Prelude.{
  Bool, Bool-cases, List, Option-cases, arith, false, inl, inr, refl, suc, true, zero, ℕ, ◌+◌, ◌<◌,
  ◌∷◌, ◌≡◌,
}
use sysjs.Shell.Scatter.Setup.{
  Answers, Change, Loop, Resource, after_functions, after_results, broken, condition, function_root,
  gives_back, lock_of_scatter, make_contexts, release_threads, result_root, results_block, scatter,
  scatter_contexts, scatter_lock, scatter_out, scatter_results, scatter_threads, takes,
  threads_block, through,
}
use sysjs.Shell.Scatter.Setup.Counts.{
  ContextsMade, LoopTook, given_back, hit, make_contexts-lem, release_results-lem,
  release_threads-lem, root_functions-lem, root_results-lem, roots, taken,
}

module _ (r : Resource) where
  Balanced : List Change → Type 0
  Balanced calls = taken r calls ≡ given_back r calls

  -- The resources that are held where the contexts are made.
  all_held : ℕ → ℕ
  all_held n =
      hit r lock_of_scatter
      + hit r condition
      + (hit r results_block + roots r result_root n)
      + (hit r threads_block + roots r function_root n)

  scatter_contexts-Balanced :
      (answers : Answers) (n : ℕ) (calls : List Change)
      → 0 < n
      → taken r calls ≡ given_back r calls + all_held n
      → Balanced (scatter_contexts answers n calls).1
  unfolding scatter_contexts scatter_out taken given_back all_held Balanced ContextsMade
  scatter_contexts-Balanced answers zero calls lo h = absurd (omega arith)
  scatter_contexts-Balanced answers (suc m) calls lo h =
      let made = make_contexts answers m calls in
      let (t, g, later) = make_contexts-lem r answers m calls in
      let cx = made.1 in
      let after = release_threads cx (suc m) made.2 in
      omega (
        arith,
        h,
        t,
        g,
        release_threads-lem r cx (suc m) made.2,
        release_results-lem r (suc m) (gives_back threads_block ∷ after),
      )

  -- The resources that are held where the functions are rooted, and where the results are.
  held_with_results : ℕ → ℕ
  held_with_results n =
      hit r lock_of_scatter + hit r condition + (hit r results_block + roots r result_root n)

  held_first : ℕ
  held_first = hit r lock_of_scatter + hit r condition

  after_functions-Balanced :
      (answers : Answers) (n : ℕ) (calls : List Change) (l : Loop)
      → 0 < n
      → taken r calls ≡ given_back r calls + held_with_results n
      → LoopTook r (roots r function_root n) (takes threads_block ∷ calls) l
      → Balanced (after_functions answers n l).1
  unfolding after_functions scatter_out taken given_back all_held held_with_results Balanced
      LoopTook
  after_functions-Balanced answers n calls (through c) lo h took =
      scatter_contexts-Balanced answers n c lo (omega (arith, h, took))
  after_functions-Balanced answers n calls (broken c) lo h took =
      omega (arith, h, took, release_results-lem r n (gives_back threads_block ∷ c))

  scatter_threads-Balanced :
      (answers : Answers) (n : ℕ) (calls : List Change)
      → 0 < n
      → taken r calls ≡ given_back r calls + held_with_results n
      → Balanced (scatter_threads answers n calls).1
  unfolding scatter_threads scatter_out taken given_back held_with_results Balanced
  scatter_threads-Balanced answers n calls lo h = elim (Bool-cases answers.allocates_threads) [
    | inl e ↦
        rw e (after_functions-Balanced answers n calls _ lo h (root_functions-lem r answers n _))
    | inr e ↦ rw e (omega (arith, h, release_results-lem r n calls))
  ]

  after_results-Balanced :
      (answers : Answers) (n : ℕ) (calls : List Change) (l : Loop)
      → 0 < n
      → taken r calls ≡ given_back r calls + held_first
      → LoopTook r (roots r result_root n) (takes results_block ∷ calls) l
      → Balanced (after_results answers n l).1
  unfolding after_results scatter_out taken given_back held_first held_with_results Balanced
      LoopTook
  after_results-Balanced answers n calls (through c) lo h took =
      scatter_threads-Balanced answers n c lo (omega (arith, h, took))
  after_results-Balanced answers n calls (broken c) lo h took = omega (arith, h, took)

  scatter_results-Balanced :
      (answers : Answers) (n : ℕ) (calls : List Change)
      → 0 < n
      → taken r calls ≡ given_back r calls + held_first
      → Balanced (scatter_results answers n calls).1
  unfolding scatter_results scatter_out taken given_back held_first Balanced
  scatter_results-Balanced answers n calls lo h = elim (Bool-cases answers.allocates_results) [
    | inl e ↦ rw e (after_results-Balanced answers n calls _ lo h (root_results-lem r answers n _))
    | inr e ↦ rw e (omega (arith, h))
  ]

  scatter_lock-Balanced : (answers : Answers) (n : ℕ) → Balanced (scatter_lock answers n).1
  unfolding scatter_lock scatter_out taken given_back Balanced held_first
  scatter_lock-Balanced answers zero = refl
  scatter_lock-Balanced answers (suc m) = elim (Bool-cases answers.makes_lock) [
    | inr e ↦ rw e refl
    | inl e ↦ elim (Bool-cases answers.makes_condition) [
      | inr q ↦ rw (e, q) refl
      | inl q ↦ rw (e, q) (scatter_results-Balanced answers (suc m) _ (omega arith) (omega arith))
    ]
  ]

-- Whatever NSPR and the engine answer, and on each of its returns, `scatter` gives back as often as
-- it took it: its lock, its condition variable, its two blocks, the root of each result and of each
-- function, and the context of each thread.
pub scatter-balance :
    (answers : Answers) (object_given : Bool) (r : Resource)
    → taken r (scatter answers object_given).1 ≡ given_back r (scatter answers object_given).1
unfolding scatter scatter_out taken given_back Balanced
scatter-balance answers false r = refl
scatter-balance answers true r = elim (Option-cases answers.array_length) [
  | inl e ↦ rw e refl
  | inr (n, e) ↦ rw e (scatter_lock-Balanced r answers n)
]
