-- ===== src/Shell/Scripts.antt =====
-- How src/js.cpp runs scripts that stand in files: the part of `Process` that is not interactive, and
-- `Load`. The options are those of the context.
pub mod Runs
use sysjs.Host.{closes}
use sysjs.Prelude.{
  Bool, List, Option, [], false, if◌then◌else◌, none, some, true, ℕ, ◌==◌, ◌||◌, ◌∷◌,
}

-- The options that scripts are compiled with, `JSOPTION_COMPILE_N_GO | JSOPTION_NO_SCRIPT_RVAL` over
-- those before; whether a text is compiled under the options; and whether the execution succeeds, with
-- the options that it leaves.
pub record ScriptEngine : Type 0 where
  pub for_scripts : ℕ → ℕ
  pub compiles : ℕ → List ℕ → Bool
  pub executes : ℕ → List ℕ → Bool × ℕ

-- What was compiled, executed and destroyed.
pub data ScriptCall : Type 0 where
  compiled_script executed_script destroyed_script : List ℕ → ScriptCall

-- The options of the context, and what was done, the newest first.
pub record Scripts : Type 0 where
  pub context_options : ℕ
  pub script_calls : List ScriptCall

-- `JS_SetOptions`, the compilation, and `JS_SetOptions` with the options before.
unfoldable pub compile_script : ScriptEngine → List ℕ → Scripts → Bool × Scripts
compile_script engine text s =
    let oldopts = s.context_options in
    let for_it = record s { context_options = engine.for_scripts oldopts } in
    let made = record for_it { script_calls = compiled_script text ∷ for_it.script_calls } in
    if engine.compiles for_it.context_options text
    then (true, record made { context_options = oldopts })
    else (false, record for_it { context_options = oldopts })

-- With `compileOnly` a script is not executed; it is destroyed in either case.
unfoldable pub execute_script : ScriptEngine → Bool → List ℕ → Scripts → Bool × Scripts
execute_script engine only_compiles text s =
    let (ok, left) = engine.executes s.context_options text in
    if only_compiles
    then (true, record s { script_calls = destroyed_script text ∷ s.script_calls })
    else (
      ok,
      record {
        context_options = left;
        script_calls = destroyed_script text ∷ executed_script text ∷ s.script_calls;
      },
    )

unfoldable pub run_script : ScriptEngine → Bool → List ℕ → Scripts → Bool × Scripts
unfolding compile_script execute_script
run_script engine only_compiles text s =
    let (compiled, after) = compile_script engine text s in
    if compiled then execute_script engine only_compiles text after else (false, after)

-- The loop of `Load`; an argument that is not made a string is `none`, and the others are the names of
-- files, each of which stands for what is in it.
unfoldable pub load : ScriptEngine → Bool → List (Option (List ℕ)) → Scripts → Bool × Scripts
unfolding run_script
load engine only_compiles [] s = (true, s)
load engine only_compiles (none ∷ args) s = (false, s)
load engine only_compiles (some filename ∷ args) s =
    let (ok, after) = run_script engine only_compiles filename s in
    let rest = load engine only_compiles args after in if ok then rest else (false, after)

-- The first line is skipped up to its newline or carriage return, which is put back.
pub skip_line : List ℕ → List ℕ
skip_line [] = []
skip_line (b ∷ file) =
    let rest = skip_line file in if (b == 10) || (b == 13) then b ∷ file else rest

-- What is compiled of a file.
pub gobble : List ℕ → List ℕ
unfolding skip_line
gobble [] = []
gobble (b ∷ file) = if b == 35 then skip_line file else b ∷ file

-- How `Process` ends: a file that is not there is an error with its exit code, a terminal is handed to
-- the interactive part, and a script is run, after which a file is closed but the standard input.
pub data Processed : Type 0 where
  file_not_found : ℕ → Processed
  goes_interactive : Processed
  processed : Scripts → Bool → Processed

abbrev pub exitcode_file_not_found : ℕ
exitcode_file_not_found = 4

-- `forceTTY || !filename || strcmp(filename, "-") == 0`
abbrev pub is_stdin : Bool → Option (List ℕ) → Bool
is_stdin true filename = true
is_stdin false none = true
is_stdin false (some []) = false
is_stdin false (some (b ∷ [])) = b == 45
is_stdin false (some (b ∷ c ∷ name)) = false

-- `found` is what fopen(3) brings of the file, `input` the standard input, and `is_tty` the answer of
-- isatty(3).
abbrev pub process_input : ScriptEngine → Bool → Bool → Bool → List ℕ → Bool → Scripts → Processed
process_input engine only_compiles force_tty is_tty text closes s =
    if force_tty || is_tty
    then goes_interactive
    else processed (run_script engine only_compiles (gobble text) s).1 closes

abbrev pub process :
    ScriptEngine
    → Bool
    → Bool
    → Bool
    → Option (List ℕ)
    → Option (List ℕ)
    → List ℕ
    → Scripts
    → Processed
process engine only_compiles force_tty is_tty filename found input s =
    if is_stdin force_tty filename
    then process_input engine only_compiles force_tty is_tty input false s
    else elim found [
      | none ↦ file_not_found exitcode_file_not_found
      | some text ↦ process_input engine only_compiles force_tty is_tty text true s
    ]
