-- ===== src/Shell/Args.antt =====
-- `ProcessArgs` of src/js.cpp: two passes over the arguments, the first to find those of the
-- script, the second to carry the options out. Arguments are the bytes of their texts; what
-- atoi(3) and atof(3) make of a value is left to the action that has it.
pub mod Passes
use sysjs.Prelude.{
  Bool, List, Option, [], false, if◌then◌else◌, none, pos, some, true, zero, ℕ, ℤ, ◌&&◌, ◌==◌, ◌||◌,
  ◌∷◌,
}

-- What is compiled in: JS_GC_ZEAL, MOZ_TRACEVIS and MOZ_SHARK.
pub record Build : Type 0 where
  pub gc_zeal : Bool
  pub trace_vis : Bool
  pub shark : Bool

-- The options that take a value, and those that take none.
pub data Setting : Type 0 where
  version zeal option_name time_limit chunk_size file_name expression max_stack trace : Setting

pub data Flag : Type 0 where
  warnings no_warnings strict relimit xml jit new_global compile_only tty split profile : Flag

pub data Kind : Type 0 where
  valued : Setting → Kind
  plain : Flag → Kind
  unknown : Kind

-- What is done, in this order: the arguments array defined, an option carried out, a script run.
pub data Action : Type 0 where
  define_arguments : List (List ℕ) → Action
  set_option : Setting → List ℕ → Action
  switch : Flag → Action
  process : Option (List ℕ) → Bool → Action

-- What the engine and the rest of the program answer, after the actions done, the newest first:
-- `gExitCode`, and whether an action succeeds.
pub record Env : Type 0 where
  pub build : Build
  pub exit_code : List Action → ℤ
  pub succeeds : List Action → Action → Bool

pub record Pass : Type 0 where
  pub actions : List Action
  pub interactive : Bool
  pub force_tty : Bool

-- `argv[i][1]` of an argument that is an option: it begins with `-` and has more.
abbrev pub letter : List ℕ → Option ℕ
letter (b ∷ c ∷ bs) = if b == 45 then some c else none
letter bs = none

-- The letters whose value the first pass skips: c f e v S t, and Z and T where they are compiled
-- in.
pub skips_value : Build → ℕ → Bool
skips_value build c =
    (c == 99)
    || (c == 102)
    || (c == 101)
    || (c == 118)
    || (c == 83)
    || (c == 116)
    || ((c == 90) && build.gc_zeal)
    || ((c == 84) && build.trace_vis)

-- The first pass: the arguments of the script.
pub first_pass : Build → List (List ℕ) → List (List ℕ)
unfolding skips_value
first_pass build [] = []
first_pass build (a ∷ []) = []
first_pass build (a ∷ v ∷ rest) = elim (letter a) [
  | none ↦ v ∷ rest
  | some c ↦ elim (skips_value build c) [
    | false ↦ first_pass build (v ∷ rest)
    | true ↦ first_pass build rest
  ]
]

-- The cases of the second pass.
pub classify : Build → ℕ → Kind
classify build c =
    if c == 118
    then valued version
    else if (c == 90) && build.gc_zeal
    then valued zeal
    else if c == 119
    then plain warnings
    else if c == 87
    then plain no_warnings
    else if c == 115
    then plain strict
    else if c == 69
    then plain relimit
    else if c == 120
    then plain xml
    else if c == 106
    then plain jit
    else if c == 111
    then valued option_name
    else if c == 80
    then plain new_global
    else if c == 116
    then valued time_limit
    else if c == 99
    then valued chunk_size
    else if c == 102
    then valued file_name
    else if c == 101
    then valued expression
    else if c == 67
    then plain compile_only
    else if c == 105
    then plain tty
    else if c == 83
    then valued max_stack
    else if c == 122
    then plain split
    else if (c == 107) && build.shark
    then plain profile
    else if (c == 84) && build.trace_vis
    then valued trace
    else unknown

-- How an option ends: the loop goes on, or `ProcessArgs` returns this.
pub data Step : Type 0 where
  continues : Pass → Step
  returns : ℤ → List Action → Step

abbrev pub did : Action → Pass → Pass
did a pass = record pass { actions = a ∷ pass.actions }

abbrev pub no_shell : Pass → Pass
no_shell pass = record pass { interactive = false }

-- An option that may fail, and what is then returned.
abbrev or_return : Bool → ℤ → Pass → Step
or_return ok code pass = if ok then continues pass else returns code pass.actions

-- What the engine answers to the script of -e is ignored; after -f a nonzero `gExitCode` is
-- returned.
pub apply_setting : Env → Setting → List ℕ → Pass → Step
apply_setting env s v pass =
    let after = did (set_option s v) pass in
    let ok = env.succeeds pass.actions (set_option s v) in
    elim s [
      | option_name ↦ or_return ok (env.exit_code after.actions) after
      | time_limit ↦ or_return ok (pos 0) after
      | file_name ↦ elim (env.exit_code after.actions) [
        | pos zero ↦ continues (no_shell after)
        | code ↦ returns code after.actions
      ]
      | expression ↦ continues (no_shell after)
      | _ ↦ continues after
    ]

pub apply_flag : Env → Flag → Pass → Step
apply_flag env f pass =
    let after = did (switch f) pass in
    let ok = env.succeeds pass.actions (switch f) in
    elim f [
      | new_global ↦ or_return ok (pos 0) after
      | split ↦ or_return ok (env.exit_code after.actions) after
      | compile_only ↦ continues (no_shell after)
      | tty ↦ continues (record after { interactive = true; force_tty = true })
      | _ ↦ continues after
    ]

-- How the second pass ends: with a script and the arguments after it, at the end of the arguments,
-- with a return from the middle, or with atoi(NULL).
pub data Ending : Type 0 where
  script : List ℕ → List (List ℕ) → Pass → Ending
  no_script : Pass → Ending
  stops : ℤ → List Action → Ending
  null_value : Ending

-- `usage()` prints the usage and returns 2.
abbrev usage_code : ℤ
usage_code = pos 2

abbrev pub missing_value : Setting → Pass → Ending
missing_value chunk_size pass = null_value
missing_value s pass = stops usage_code pass.actions

pub second_pass : Env → List (List ℕ) → Pass → Ending
unfolding classify apply_setting apply_flag
second_pass env [] pass = no_script pass
second_pass env (a ∷ []) pass = elim (letter a) [
  | none ↦ script a [] (no_shell pass)
  | some c ↦ elim (classify env.build c) [
    | unknown ↦ stops usage_code pass.actions
    | valued s ↦ missing_value s pass
    | plain f ↦ elim (apply_flag env f pass) [
      | returns code actions ↦ stops code actions
      | continues pass' ↦ no_script pass'
    ]
  ]
]
second_pass env (a ∷ v ∷ rest) pass = elim (letter a) [
  | none ↦ script a (v ∷ rest) (no_shell pass)
  | some c ↦ elim (classify env.build c) [
    | unknown ↦ stops usage_code pass.actions
    | plain f ↦ elim (apply_flag env f pass) [
      | returns code actions ↦ stops code actions
      | continues pass' ↦ second_pass env (v ∷ rest) pass'
    ]
    | valued s ↦ elim (apply_setting env s v pass) [
      | returns code actions ↦ stops code actions
      | continues pass' ↦ second_pass env rest pass'
    ]
  ]
]

-- The code that `ProcessArgs` returns, with what was done, the newest first.
pub data Exit : Type 0 where
  exits : ℤ → List Action → Exit
  crashes : Exit

abbrev pub run : Env → Option (List ℕ) → Pass → Exit
run env name pass =
    let actions = process name pass.force_tty ∷ pass.actions in
    exits (env.exit_code actions) actions

abbrev finish_args : Env → Ending → Exit
finish_args env (script name args pass) = run env (some name) pass
finish_args env (no_script pass) =
    if pass.interactive then run env none pass else exits (env.exit_code pass.actions) pass.actions
finish_args env (stops code actions) = exits code actions
finish_args env null_value = crashes

abbrev pub process_args : Env → List (List ℕ) → Exit
unfolding first_pass second_pass
process_args env args =
    let arguments = define_arguments (first_pass env.build args) in
    let begin : Pass = record { actions = arguments ∷ []; interactive = true; force_tty = false } in
    if env.succeeds [] arguments
    then finish_args env (second_pass env args begin)
    else exits (pos 1) []
