-- ===== src/Shell/Report/Outcomes.antt =====
-- The exit code that `my_ErrorReporter` (src/js.cpp) leaves, and where it fails.
use sysjs.Prelude.{
  Bool, Bool-cases, List, Option, false, if◌then◌else◌, inl, inr, none, not, pos, refl, some, true,
  ℕ, ℤ, ◌&&◌, ◌==◌, ◌≡◌,
}
use sysjs.Shell.Report.{ErrorReport, Reported, error_reporter, null_prefix, print_report, reported}

-- A source line, and nothing to put before it.
unfoldable pub lacks_prefix : ErrorReport → Bool
lacks_prefix report = elim report.linebuf [
  | none ↦ false
  | some l ↦ elim report.filename [
    | some f ↦ false
    | none ↦ (report.lineno == 0) && not report.is_warning
  ]
]

pub code_after : Reported → Option ℤ
code_after (reported text code) = some code
code_after null_prefix = none

HasCode : Bool → ℤ → List ℕ → ErrorReport → Type 0
HasCode report_warnings code message report =
    code_after (error_reporter report_warnings code message (some report)) ≡ (
      if lacks_prefix report
      then none
      else some
          (if report.is_warning then code else if report.is_out_of_memory then pos 5 else pos 3))

module _ (code : ℤ) (message : List ℕ) (n : ℕ) (s o : Bool) (token : ℕ) where
  report_with : Bool → Option (List ℕ) → Option (List ℕ) → ErrorReport
  report_with w linebuf f = record {
    filename = f;
    lineno = n;
    is_warning = w;
    is_strict = s;
    is_out_of_memory = o;
    linebuf = linebuf;
    token = token;
  }

  warning-HasCode :
      (report_warnings : Bool) (linebuf f : Option (List ℕ))
      → HasCode report_warnings code message (report_with true linebuf f)
  unfolding error_reporter print_report code_after lacks_prefix HasCode report_with
  warning-HasCode true none f = refl
  warning-HasCode false none f = refl
  warning-HasCode true (some l) (some f) = refl
  warning-HasCode false (some l) (some f) = refl
  warning-HasCode r (some l) none = elim (Bool-cases (n == 0)) [
    | inl e ↦ elim (Bool-cases r) [ inl q ↦ rw (e, q) refl | inr q ↦ rw (e, q) refl ]
    | inr e ↦ elim (Bool-cases r) [ inl q ↦ rw (e, q) refl | inr q ↦ rw (e, q) refl ]
  ]

  error-HasCode :
      (report_warnings : Bool) (linebuf f : Option (List ℕ))
      → HasCode report_warnings code message (report_with false linebuf f)
  unfolding error_reporter print_report code_after lacks_prefix HasCode report_with
  error-HasCode r none f = refl
  error-HasCode r (some l) (some f) = elim (Bool-cases (n == 0)) [
    | inl e ↦ rw (print_report, e) refl
    | inr e ↦ rw (print_report, e) refl
  ]
  error-HasCode r (some l) none = elim (Bool-cases (n == 0)) [
    | inl e ↦ rw (print_report, e) refl
    | inr e ↦ rw (print_report, e) refl
  ]

  report-HasCode :
      (report_warnings w : Bool) (linebuf f : Option (List ℕ))
      → HasCode report_warnings code message (report_with w linebuf f)
  report-HasCode r true linebuf f = warning-HasCode r linebuf f
  report-HasCode r false linebuf f = error-HasCode r linebuf f

-- The exit code after any report: as it was for a warning, whether it is printed or not, 5 where the
-- memory ran out, and 3 for the other errors. There is none, since NULL is handed to `%s`, where a
-- source line is to be printed of an error that has neither a file name nor a line number.
pub error_reporter-codes :
    (report_warnings : Bool) (code : ℤ) (message : List ℕ) (report : ErrorReport)
    → code_after (error_reporter report_warnings code message (some report)) ≡ (
        if lacks_prefix report
        then none
        else some
            (if report.is_warning then code else if report.is_out_of_memory then pos 5 else pos 3))
unfolding HasCode report_with
error_reporter-codes r code message report =
    report-HasCode code message report.lineno report.is_strict report.is_out_of_memory report.token
      r report.is_warning report.linebuf report.filename
