-- ===== src/Shell/Args/Passes.antt =====
-- What the two passes of ProcessArgs of src/js.cpp take for the script's arguments.
use sysjs.Prelude.{
  Bool, List, Option-cases, [], ap, arith, false, inl, inr, none, refl, some, true, ℕ, ℤ, ◌∙◌, ◌∷◌,
  ◌≡◌, ◌≢◌, ◌⊎◌,
}
use sysjs.Shell.Args.{
  Action, Build, Ending, Env, Flag, Kind, Pass, Setting, Step, apply_flag, apply_setting,
  chunk_size, classify, continues, did, first_pass, letter, missing_value, no_script, no_shell,
  option_name, plain, returns, script, second_pass, set_option, skips_value, unknown, valued,
}

abbrev is_valued : Kind → Bool
is_valued (valued s) = true
is_valued k = false

-- No argument is an option `-o`.
abbrev pub WithoutNames : List (List ℕ) → Type 0
WithoutNames [] = Unit {0}
WithoutNames (a ∷ args) = (letter a ≢ some 111) × WithoutNames args

-- What the second pass leaves to the script is what the first pass found.
abbrev pub Agrees : List (List ℕ) → Ending → Type 0
Agrees arguments (script name args pass) = arguments ≡ args
Agrees arguments (no_script pass) = arguments ≡ []
Agrees arguments ending = Unit {0}

-- The switch of the first pass and that of the second have the same letters with a value but `-o`.
skips_value-classify :
    (build : Build) (c : ℕ) → c ≢ 111 → skips_value build c ≡ is_valued (classify build c)
unfolding skips_value classify
skips_value-classify build c h = ground (arith, h)

Kind-cases :
    (k : Kind) → (k ≡ unknown) ⊎ ((s : Setting) × (k ≡ valued s)) ⊎ ((f : Flag) × (k ≡ plain f))
Kind-cases unknown = inl refl
Kind-cases (valued s) = inr (inl (s, refl))
Kind-cases (plain f) = inr (inr (f, refl))

Step-cases :
    (s : Step)
    → ((code : ℤ) × (actions : List Action) × (s ≡ returns code actions))
      ⊎ ((pass : Pass) × (s ≡ continues pass))
Step-cases (returns code actions) = inl (code, actions, refl)
Step-cases (continues pass) = inr (pass, refl)

missing_value-Agrees :
    (arguments : List (List ℕ)) (s : Setting) (pass : Pass)
    → Agrees arguments (missing_value s pass)
missing_value-Agrees arguments chunk_size pass = tt
missing_value-Agrees arguments s pass = tt

-- Where no argument begins with `-o`, the array `arguments` that the script sees holds what
-- stands after the script's name, and is empty where no script is named, whatever else the
-- options are, if the second pass gets that far.
pub first_pass-second_pass :
    (env : Env) (args : List (List ℕ)) (pass : Pass)
    → WithoutNames args
    → Agrees (first_pass env.build args) (second_pass env args pass)
unfolding first_pass second_pass
first_pass-second_pass env [] pass free = refl
first_pass-second_pass env (a ∷ []) pass free = elim (Option-cases (letter a)) [
  | inl operand ↦ rw (first_pass, second_pass, operand) refl
  | inr option ↦ elim (Kind-cases (classify env.build option.0)) [
    | inl k ↦ rw (first_pass, second_pass, option.1, k) tt
    | inr (inl k) ↦
        rw (first_pass, second_pass, option.1, k.1)
          (missing_value-Agrees (first_pass env.build (a ∷ [])) k.0 pass)
    | inr (inr k) ↦
        rw (first_pass, second_pass, option.1, k.1)
          (elim (Step-cases (apply_flag env k.0 pass)) [
            | inl ends ↦ rw ends.2 tt
            | inr on ↦ rw on.1 refl
          ])
  ]
]
first_pass-second_pass env (a ∷ v ∷ rest) pass free = elim (Option-cases (letter a)) [
  | inl operand ↦ rw (first_pass, second_pass, operand) refl
  | inr option ↦
      let known = skips_value-classify env.build option.0 (λ e. free.0 (option.1 ∙ ap some e)) in
      elim (Kind-cases (classify env.build option.0)) [
        | inl k ↦ rw (first_pass, second_pass, option.1, known, k) tt
        | inr (inl k) ↦
            rw (first_pass, second_pass, option.1, known, k.1)
              (elim (Step-cases (apply_setting env k.0 v pass)) [
                | inl ends ↦ rw ends.2 tt
                | inr on ↦ rw on.1 (first_pass-second_pass env rest on.0 free.1.1)
              ])
        | inr (inr k) ↦
            rw (first_pass, second_pass, option.1, known, k.1)
              (elim (Step-cases (apply_flag env k.0 pass)) [
                | inl ends ↦ rw ends.2 tt
                | inr on ↦ rw on.1 (first_pass-second_pass env (v ∷ rest) on.0 free.1)
              ])
      ]
]

second_pass-operand :
    (env : Env) (a : List ℕ) (args : List (List ℕ)) (pass : Pass)
    → letter a ≡ none
    → second_pass env (a ∷ args) pass ≡ script a args (no_shell pass)
unfolding second_pass
second_pass-operand env a [] pass h = rw (second_pass, h) refl
second_pass-operand env a (v ∷ args) pass h = rw (second_pass, h) refl

-- After `-o` with a known name that is no option itself, the script is taken for one of its own
-- arguments: the first pass takes the name for the script.
pub first_pass-option_name :
    (env : Env) (bs name program : List ℕ) (args : List (List ℕ)) (pass : Pass)
    → letter name ≡ none
    → letter program ≡ none
    → env.succeeds pass.actions (set_option option_name name) ≡ true
    → let argv = (45 ∷ 111 ∷ bs) ∷ name ∷ program ∷ args in
      (first_pass env.build argv ≡ program ∷ args)
      × (second_pass env argv pass
          ≡ script program args (no_shell (did (set_option option_name name) pass)))
unfolding first_pass second_pass skips_value classify apply_setting
first_pass-option_name env bs name program args pass operand after known = (
  rw (first_pass, operand) refl,
  rw (second_pass, known)
      (second_pass-operand env program args (did (set_option option_name name) pass) after),
)
