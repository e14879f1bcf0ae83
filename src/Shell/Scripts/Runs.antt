-- ===== src/Shell/Scripts/Runs.antt =====
-- What the runs of scripts in src/js.cpp leave behind.
use sysjs.Prelude.{
  ==_iff, Bool, Bool-cases, List, Option, Without, [], ap, append-nil, append_assoc, arith, false,
  inl, inr, none, refl, some, sym, true, ℕ, ◌++◌, ◌+◌, ◌==◌, ◌∙◌, ◌∷◌, ◌≡◌, ◌≢◌, ◌⊎◌,
}
use sysjs.Shell.Scripts.{
  ScriptCall, ScriptEngine, Scripts, compile_script, compiled_script, destroyed_script,
  execute_script, executed_script, gobble, load, run_script, skip_line,
}

-- A text that is at its end or at the end of a line.
pub AtLineEnd : List ℕ → Type 0
AtLineEnd [] = Unit {0}
AtLineEnd (b ∷ bs) = (b ≡ 10) ⊎ (b ≡ 13)

ne_byte : (b k : ℕ) → (b == k) ≡ false → b ≢ k
ne_byte b k e q = ground arith

skip_line-AtLineEnd :
    (file : List ℕ)
    → (skipped : List ℕ) × (file ≡ skipped ++ skip_line file)
      × Without 10 skipped
      × Without 13 skipped
      × AtLineEnd (skip_line file)
unfolding skip_line AtLineEnd
skip_line-AtLineEnd [] = ([], refl, tt, tt, tt)
skip_line-AtLineEnd (b ∷ file) = elim (Bool-cases (b == 10)) [
  | inl e ↦ ([], rw e refl, tt, tt, rw e (inl ((==_iff b 10).0 e)))
  | inr n ↦ elim (Bool-cases (b == 13)) [
    | inl e ↦ ([], rw (n, e) refl, tt, tt, rw (n, e) (inr ((==_iff b 13).0 e)))
    | inr m ↦
        let (skipped, parts, w10, w13, at) = skip_line-AtLineEnd file in
        (
          b ∷ skipped,
          rw (n, m) (ap (λ l. b ∷ l) parts),
          (ne_byte b 10 n, w10),
          (ne_byte b 13 m, w13),
          rw (n, m) at,
        )
  ]
]

-- What is left of a file of at least one byte, where its first line is skipped if it begins with `#`.
pub SkipsLine : ℕ → List ℕ → List ℕ → Type 0
SkipsLine first file left =
    ((first ≢ 35) × (left ≡ first ∷ file))
    ⊎ ((first ≡ 35)
        × (skipped : List ℕ) × (file ≡ skipped ++ left)
        × Without 10 skipped
        × Without 13 skipped
        × AtLineEnd left)

-- What `Process` compiles of a file that is not empty is all of it, where it does not begin with `#`.
-- Where it does, what is left out is that byte and those behind it up to the first newline or carriage
-- return, or to the end: no byte that ends a line, so that what is compiled stands in the line in which
-- it stands in the file.
pub gobble-SkipsLine : (first : ℕ) (file : List ℕ) → SkipsLine first file (gobble (first ∷ file))
unfolding gobble SkipsLine
gobble-SkipsLine first file = elim (Bool-cases (first == 35)) [
  | inl e ↦
      let (skipped, parts, w10, w13, at) = skip_line-AtLineEnd file in
      inr ((==_iff first 35).0 e, skipped, rw e parts, w10, w13, rw e at)
  | inr n ↦ inl (ne_byte first 35 n, rw n refl)
]

-- How many scripts were compiled and how many were destroyed.
compiled_count : List ScriptCall → ℕ
compiled_count [] = 0
compiled_count (compiled_script t ∷ calls) = compiled_count calls + 1
compiled_count (executed_script t ∷ calls) = compiled_count calls
compiled_count (destroyed_script t ∷ calls) = compiled_count calls

destroyed_count : List ScriptCall → ℕ
destroyed_count [] = 0
destroyed_count (compiled_script t ∷ calls) = destroyed_count calls
destroyed_count (executed_script t ∷ calls) = destroyed_count calls
destroyed_count (destroyed_script t ∷ calls) = destroyed_count calls + 1

-- No script is left.
pub Tidy : Scripts → Type 0
Tidy s = compiled_count s.script_calls ≡ destroyed_count s.script_calls

run_script-Tidy :
    (engine : ScriptEngine) (only : Bool) (text : List ℕ) (s : Scripts)
    → Tidy s
    → Tidy (run_script engine only text s).1
unfolding run_script compile_script execute_script Tidy compiled_count destroyed_count
run_script-Tidy engine only text s tidy =
    elim (Bool-cases (engine.compiles (engine.for_scripts s.context_options) text)) [
      | inr bad ↦ rw bad tidy
      | inl made ↦ elim (Bool-cases only) [
        | inl o ↦ rw (made, o) (ap (λ n. n + 1) tidy)
        | inr e ↦ rw (made, e) (ap (λ n. n + 1) tidy)
      ]
    ]

-- `load` leaves no script that it compiled, at whichever of its arguments it ends.
pub load-Tidy :
    (engine : ScriptEngine) (only : Bool) (args : List (Option (List ℕ))) (s : Scripts)
    → Tidy s
    → Tidy (load engine only args s).1
unfolding load
load-Tidy engine only [] s tidy = tidy
load-Tidy engine only (none ∷ args) s tidy = tidy
load-Tidy engine only (some name ∷ args) s tidy =
    let after = run_script-Tidy engine only name s tidy in
    elim (Bool-cases (run_script engine only name s).0) [
      | inl ok ↦ rw ok (load-Tidy engine only args (run_script engine only name s).1 after)
      | inr bad ↦ rw bad after
    ]

-- The scripts that were executed, the first one first.
pub executed_texts : List ScriptCall → List (Option (List ℕ))
executed_texts [] = []
executed_texts (compiled_script t ∷ calls) = executed_texts calls
executed_texts (executed_script t ∷ calls) = executed_texts calls ++ some t ∷ []
executed_texts (destroyed_script t ∷ calls) = executed_texts calls

false-true : ◌≡◌ {A = Bool} false true → ⊥
false-true e = cc

run_script-executes :
    (engine : ScriptEngine) (text : List ℕ) (s : Scripts)
    → (run_script engine false text s).0 ≡ true
    → executed_texts (run_script engine false text s).1.script_calls
      ≡ executed_texts s.script_calls ++ some text ∷ []
unfolding run_script compile_script execute_script executed_texts
run_script-executes engine text s ok =
    elim (Bool-cases (engine.compiles (engine.for_scripts s.context_options) text)) [
      | inr bad ↦ absurd (false-true (rw bad at ok))
      | inl made ↦ rw made refl
    ]

-- Where `load` ends well and scripts are executed, it has executed all its arguments, in their order.
pub load-executes :
    (engine : ScriptEngine) (args : List (Option (List ℕ))) (s : Scripts)
    → (load engine false args s).0 ≡ true
    → executed_texts (load engine false args s).1.script_calls
      ≡ executed_texts s.script_calls ++ args
unfolding load
load-executes engine [] s ok = sym (append-nil (executed_texts s.script_calls))
load-executes engine (none ∷ args) s ok = absurd (false-true ok)
load-executes engine (some name ∷ args) s ok =
    let after = (run_script engine false name s).1 in
    elim (Bool-cases (run_script engine false name s).0) [
      | inl fine ↦ rw fine (
          load-executes engine args after (rw fine at ok)
          ∙ ap (λ l. l ++ args) (run_script-executes engine name s fine)
          ∙ append_assoc (executed_texts s.script_calls) (some name ∷ []) args)
      | inr bad ↦ absurd (false-true (rw bad at ok))
    ]
