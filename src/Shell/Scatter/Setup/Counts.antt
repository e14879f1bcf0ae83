-- ===== src/Shell/Scatter/Setup/Counts.antt =====
-- How often the loops of `Scatter` (src/js.cpp) take and give back a resource.
use sysjs.Prelude.{
  Bool, Bool-cases, List, [], ap, arith, false, if◌then◌else◌, inl, inr, refl, suc, true, update,
  update_ne, update_self, zero, ℕ, ◌+◌, ◌<◌, ◌==◌, ◌∙◌, ◌∷◌, ◌≡◌, ◌≤◌,
}
use sysjs.Shell.Scatter.Setup.{
  Answers, Change, Loop, Resource, broken, condition, context_of, function_root, gives_back,
  lock_of_scatter, make_context, make_contexts, release_results, release_threads, result_root,
  results_block, root_function, root_functions, root_result, root_results, takes, threads_block,
  through, unroot_below,
}

same : Resource → Resource → Bool
same lock_of_scatter lock_of_scatter = true
same condition condition = true
same results_block results_block = true
same threads_block threads_block = true
same (result_root i) (result_root j) = i == j
same (function_root i) (function_root j) = i == j
same (context_of i) (context_of j) = i == j
same _ _ = false

pub hit : Resource → Resource → ℕ
unfolding same
hit r x = if same r x then 1 else 0

-- How often a resource is taken, and given back.
unfoldable pub taken : Resource → List Change → ℕ
unfolding hit
taken r [] = 0
taken r (takes x ∷ calls) = hit r x + taken r calls
taken r (gives_back x ∷ calls) = taken r calls

unfoldable pub given_back : Resource → List Change → ℕ
unfolding hit
given_back r [] = 0
given_back r (takes x ∷ calls) = given_back r calls
given_back r (gives_back x ∷ calls) = hit r x + given_back r calls

module _ (r : Resource) where
  -- The resources of the first `n` rounds.
  unfoldable pub roots : (ℕ → Resource) → ℕ → ℕ
  roots root zero = 0
  roots root (suc i) = hit r (root i) + roots root i

  unfoldable pub of_contexts : (ℕ → Bool) → ℕ → ℕ
  of_contexts cx zero = 0
  of_contexts cx (suc i) =
      let rest = of_contexts cx i in if cx i then hit r (context_of i) + rest else rest

  unroot_below-lem :
      (root : ℕ → Resource) (i : ℕ) (calls : List Change)
      → (taken r (unroot_below root i calls) ≡ taken r calls)
        × (given_back r (unroot_below root i calls) ≡ given_back r calls + roots root i)
  unfolding unroot_below taken given_back roots
  unroot_below-lem root zero calls = (refl, omega arith)
  unroot_below-lem root (suc i) calls =
      let (t, g) = unroot_below-lem root i (gives_back (root i) ∷ calls) in (t, omega (arith, g))

  -- What a loop took, if it was not broken.
  unfoldable pub LoopTook : ℕ → List Change → Loop → Type 0
  LoopTook k calls (through c) =
      (taken r c ≡ taken r calls + k) × (given_back r c ≡ given_back r calls)
  LoopTook k calls (broken c) =
      (taken r c + given_back r calls ≡ given_back r c + taken r calls) × Unit {0}

  root_result-lem :
      (answers : Answers) (i : ℕ) (calls : List Change) (l : Loop)
      → LoopTook (roots result_root i) calls l
      → LoopTook (roots result_root (suc i)) calls (root_result answers i l)
  unfolding root_result taken given_back roots LoopTook
  root_result-lem answers i calls (broken c) h = h
  root_result-lem answers i calls (through c) h = elim (Bool-cases (answers.roots_result i)) [
    | inl e ↦ rw e (omega (arith, h), h.1)
    | inr e ↦ rw e (omega (arith, h, unroot_below-lem result_root i c), tt)
  ]

  pub root_results-lem :
      (answers : Answers) (i : ℕ) (calls : List Change)
      → LoopTook (roots result_root i) calls (root_results answers i calls)
  unfolding root_results roots LoopTook
  root_results-lem answers zero calls = (omega arith, refl)
  root_results-lem answers (suc i) calls =
      root_result-lem answers i calls _ (root_results-lem answers i calls)

  root_function-lem :
      (answers : Answers) (i : ℕ) (calls : List Change) (l : Loop)
      → LoopTook (roots function_root i) calls l
      → LoopTook (roots function_root (suc i)) calls (root_function answers i l)
  unfolding root_function taken given_back roots LoopTook
  root_function-lem answers i calls (broken c) h = h
  root_function-lem answers i calls (through c) h = elim (Bool-cases (answers.roots_function i)) [
    | inr e ↦ rw e (omega (arith, h, unroot_below-lem function_root i c), tt)
    | inl e ↦ elim (Bool-cases (answers.has_element i)) [
      | inl q ↦ rw (e, q) (omega (arith, h), h.1)
      | inr q ↦
          rw (e, q)
            (
              omega (
                arith,
                h,
                unroot_below-lem function_root i
                    (gives_back (function_root i) ∷ takes (function_root i) ∷ c),
              ),
              tt,
            )
    ]
  ]

  pub root_functions-lem :
      (answers : Answers) (i : ℕ) (calls : List Change)
      → LoopTook (roots function_root i) calls (root_functions answers i calls)
  unfolding root_functions roots LoopTook
  root_functions-lem answers zero calls = (omega arith, refl)
  root_functions-lem answers (suc i) calls =
      root_function-lem answers i calls _ (root_functions-lem answers i calls)

  of_contexts-above :
      (cx : ℕ → Bool) (n i : ℕ) (b : Bool)
      → n ≤ i
      → of_contexts (update cx i b) n ≡ of_contexts cx n
  unfolding of_contexts
  of_contexts-above cx zero i b h = refl
  of_contexts-above cx (suc n) i b h =
      rw (update_ne cx i b n (λ q. omega (arith, q)), of_contexts-above cx n i b (omega arith))

  of_contexts-none : (n : ℕ) → of_contexts (λ i. false) n ≡ 0
  unfolding of_contexts
  of_contexts-none zero = refl
  of_contexts-none (suc n) = of_contexts-none n

  -- The contexts that were made are those of `cx`, and none is that of a later thread.
  unfoldable pub ContextsMade : ℕ → List Change → Bool × (ℕ → Bool) × List Change → Type 0
  ContextsMade m calls (all, cx, c) =
      (taken r c ≡ taken r calls + of_contexts cx (suc m))
      × (given_back r c ≡ given_back r calls)
      × ((i : ℕ) → m < i → cx i ≡ false)

  of_contexts-skip :
      (cx : ℕ → Bool) (n : ℕ) → cx n ≡ false → of_contexts cx (suc n) ≡ of_contexts cx n
  unfolding of_contexts
  of_contexts-skip cx n e = rw e

  of_contexts-update :
      (cx : ℕ → Bool) (n : ℕ)
      → of_contexts (update cx n true) (suc n) ≡ hit r (context_of n) + of_contexts cx n
  unfolding of_contexts
  of_contexts-update cx n =
      rw (update_self cx n true)
        (ap (λ k. hit r (context_of n) + k) (of_contexts-above cx n n true (omega arith)))

  make_context-lem :
      (answers : Answers) (m : ℕ) (calls : List Change) (made : Bool × (ℕ → Bool) × List Change)
      → ContextsMade m calls made
      → ContextsMade (suc m) calls (make_context answers (suc m) made)
  unfolding make_context taken given_back ContextsMade
  make_context-lem answers m calls (false, cx, c) (t, g, none_later) = (
    omega (arith, t, of_contexts-skip cx (suc m) (none_later (suc m) (omega arith))),
    g,
    (λ i h. none_later i (omega arith)),
  )
  make_context-lem answers m calls (true, cx, c) (t, g, none_later) =
      elim (Bool-cases (answers.makes_context (suc m))) [
        | inr e ↦ rw e (
          omega (arith, t, of_contexts-skip cx (suc m) (none_later (suc m) (omega arith))),
          g,
          (λ i h. none_later i (omega arith)),
        )
        | inl e ↦ rw e (
          omega (arith, t, of_contexts-update cx (suc m)),
          g,
          (λ i h. update_ne cx (suc m) true i (λ q. omega (arith, q)) ∙ none_later i (omega arith)),
        )
      ]

  pub make_contexts-lem :
      (answers : Answers) (m : ℕ) (calls : List Change)
      → ContextsMade m calls (make_contexts answers m calls)
  unfolding make_contexts of_contexts ContextsMade
  make_contexts-lem answers zero calls = (omega arith, refl, (λ i h. refl))
  make_contexts-lem answers (suc m) calls =
      make_context-lem answers m calls _ (make_contexts-lem answers m calls)

  pub release_threads-lem :
      (cx : ℕ → Bool) (n : ℕ) (calls : List Change)
      → (taken r (release_threads cx n calls) ≡ taken r calls)
        × (given_back r (release_threads cx n calls)
            ≡ given_back r calls + roots function_root n + of_contexts cx n)
  unfolding release_threads taken given_back roots of_contexts
  release_threads-lem cx zero calls = (refl, omega arith)
  release_threads-lem cx (suc n) calls =
      let h = release_threads-lem cx n calls in
      elim (Bool-cases (cx n)) [
        | inl e ↦ rw e (h.0, omega (arith, h))
        | inr e ↦ rw e (h.0, omega (arith, h))
      ]

  pub release_results-lem :
      (n : ℕ) (calls : List Change)
      → (taken r (release_results n calls) ≡ taken r calls)
        × (given_back r (release_results n calls) ≡ given_back r calls + roots result_root n)
  unfolding release_results taken given_back roots
  release_results-lem zero calls = (refl, omega arith)
  release_results-lem (suc n) calls = let h = release_results-lem n calls in (h.0, omega (arith, h))
