-- ===== src/Shell/Report.antt =====
-- `my_ErrorReporter` of src/js.cpp: what is printed of an error, and the exit code that it sets.
-- Texts are bytes, and JS_smprintf finds the memory that it needs.
pub mod Lines
pub mod Outcomes
use mathlib.Core.Option
use sysjs.Prelude.{
  Bool, List, Option, [], false, if◌then◌else◌, ltb, map, none, not, pos, replicate, some, suc,
  take, zero, ℕ, ℤ, ◌%◌, ◌&&◌, ◌*◌, ◌++◌, ◌+◌, ◌-◌, ◌/◌, ◌==◌, ◌∷◌,
}

-- The parts of a JSErrorReport that are read; `token` is `tokenptr - linebuf`, an offset inside the
-- line.
pub record ErrorReport : Type 0 where
  pub filename : Option (List ℕ)
  pub lineno : ℕ
  pub is_warning : Bool
  pub is_strict : Bool
  pub is_out_of_memory : Bool
  pub linebuf : Option (List ℕ)
  pub token : ℕ

-- What `%u` prints.
digits : ℕ → ℕ → List ℕ → List ℕ
digits zero n acc = acc
digits (suc fuel) n acc =
    let rest = digits fuel (n / 10) ((48 + n % 10) ∷ acc) in
    if ltb n 10 then (48 + n) ∷ acc else rest

-- Each round but the last leaves a smaller number.
abbrev pub decimal : ℕ → List ℕ
unfolding digits
decimal n = digits (suc n) n []

-- `"%s:"`, `"%s%u: "` and `"%s%swarning: "` after what there is of a prefix.
abbrev or_empty : Option (List ℕ) → List ℕ
or_empty none = []
or_empty (some p) = p

abbrev strict_text : List ℕ
strict_text = 115 ∷ 116 ∷ 114 ∷ 105 ∷ 99 ∷ 116 ∷ 32 ∷ []

abbrev warning_text : List ℕ
warning_text = 119 ∷ 97 ∷ 114 ∷ 110 ∷ 105 ∷ 110 ∷ 103 ∷ 58 ∷ 32 ∷ []

abbrev pub file_prefix : ErrorReport → Option (List ℕ)
file_prefix report = Option.map (λ f. f ++ 58 ∷ []) report.filename

abbrev pub line_prefix : ErrorReport → Option (List ℕ)
line_prefix report =
    if report.lineno == 0
    then file_prefix report
    else some (or_empty (file_prefix report) ++ decimal report.lineno ++ 58 ∷ 32 ∷ [])

abbrev pub prefix_of : ErrorReport → Option (List ℕ)
prefix_of report =
    if report.is_warning
    then some (
        or_empty (line_prefix report)
        ++ (if report.is_strict then strict_text else [])
        ++ warning_text)
    else line_prefix report

-- The message with the prefix before each of its lines; `begun` is what strchr(3) has passed over
-- since the last newline.
pub print_message : List ℕ → List ℕ → List ℕ → List ℕ
print_message p begun [] = p ++ begun
print_message p begun (b ∷ bs) =
    let printed = p ++ begun ++ 10 ∷ print_message p [] bs in
    let on = print_message p (begun ++ b ∷ []) bs in if b == 10 then printed else on

-- `(j + 8) & ~7`
abbrev pub tab_stop : ℕ → ℕ
tab_stop j = (j + 8) / 8 * 8

-- The dots up to the token, from column `j` on, and the column that they reach.
pub caret_dots : ℕ → List ℕ → List ℕ
caret_dots j [] = []
caret_dots j (b ∷ bs) =
    let tabbed = replicate (tab_stop j - j) 46 ++ caret_dots (tab_stop j) bs in
    let dotted = 46 ∷ caret_dots (j + 1) bs in if b == 9 then tabbed else dotted

pub ends_with_newline : List ℕ → Bool
ends_with_newline [] = false
ends_with_newline (b ∷ []) = b == 10
ends_with_newline (b ∷ c ∷ bs) = ends_with_newline (c ∷ bs)

-- The line with the error, and the caret below.
pub print_source : List ℕ → List ℕ → ℕ → List ℕ
unfolding caret_dots ends_with_newline
print_source p linebuf token =
    58 ∷ 10 ∷ p
    ++ linebuf
    ++ (if ends_with_newline linebuf then [] else 10 ∷ [])
    ++ p
    ++ caret_dots 0 (take token linebuf)
    ++ 94 ∷ 10 ∷ []

-- What goes to `gErrFile`, with `gExitCode` afterwards; or NULL is handed to `%s`.
pub data Reported : Type 0 where
  reported : List ℕ → ℤ → Reported
  null_prefix : Reported

abbrev pub exit_code_of : ErrorReport → ℤ → ℤ
exit_code_of report code =
    if report.is_warning then code else if report.is_out_of_memory then pos 5 else pos 3

pub print_report : List ℕ → ErrorReport → ℤ → Reported
unfolding print_message print_source
print_report message report code =
    let text = print_message (or_empty (prefix_of report)) [] message in
    elim report.linebuf [
      | none ↦ reported (text ++ 10 ∷ []) (exit_code_of report code)
      | some linebuf ↦ elim (prefix_of report) [
        | none ↦ null_prefix
        | some p ↦ reported (text ++ print_source p linebuf report.token) (exit_code_of report code)
      ]
    ]

pub error_reporter : Bool → ℤ → List ℕ → Option ErrorReport → Reported
unfolding print_report
error_reporter report_warnings code message none = reported (message ++ 10 ∷ []) code
error_reporter report_warnings code message (some report) =
    if report.is_warning && not report_warnings
    then reported [] code
    else print_report message report code
