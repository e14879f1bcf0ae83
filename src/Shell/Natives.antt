-- ===== src/Shell/Natives.antt =====
-- Small native functions of src/js.cpp: Print and Write, MakeAbsolutePathname and Snarf, and the
-- parameters of the garbage collector. A value that is made a string is the bytes of it; `none` is one
-- for which JS_ValueToString or JS_EncodeString fails.
pub mod Output
pub mod Files
pub mod Collector
use sysjs.Prelude.{
  Bool, List, Option, [], false, if◌then◌else◌, length, ltb, none, not, some, suc, take, true, zero,
  ℕ, ◌&&◌, ◌++◌, ◌+◌, ◌==◌, ◌^◌, ◌∷◌,
}
use sysjs.Shell.GetLine.{until_nul}

-- How fprintf(3) or write(2) ends, with `errno` afterwards: the bytes written, or an error.
pub data Wrote : Type 0 where
  wrote : ℕ → ℕ → Wrote
  not_written : ℕ → Wrote

-- What goes out, the newest first, with how it ended.
pub record Sent : Type 0 where
  pub sent_bytes : List ℕ
  pub outcome : Wrote

-- A function returns a number of bytes, or fails, with what it has sent; `says` is whether an error is
-- reported to the script. Or the number overflows an `int`.
pub data Written : Type 0 where
  written_all : ℕ → List Sent → Written
  count_overflows : List Sent → Written
  write_failed : Bool → List Sent → Written

-- `ret < 0 || errno != 0`
abbrev pub failed_write : Wrote → Bool
failed_write (wrote n errno) = not (errno == 0)
failed_write (not_written errno) = true

abbrev pub count_of : Wrote → ℕ
count_of (wrote n errno) = n
count_of (not_written errno) = 0

-- The separator is written from the second argument on; only a negative answer to it is an error.
abbrev pub below_zero : Wrote → Bool
below_zero (wrote n errno) = false
below_zero (not_written errno) = true

-- `l += ret`, for an `int`.
abbrev pub fits_int : ℕ → Bool
fits_int l = ltb l (2 ^ 31)

-- The loop of `Write`, from argument `i` on, with `l` bytes written; `answers` is what write(2)
-- answers after what was sent. Of an argument strlen(3) counts the bytes before its first NUL.
pub write_loop : (List Sent → List ℕ → Wrote) → ℕ → ℕ → List Sent → List (Option (List ℕ)) → Written
unfolding until_nul
write_loop answers i l sent [] = written_all l sent
write_loop answers i l sent (none ∷ args) = write_failed false sent
write_loop answers i l sent (some argument ∷ args) =
    let bytes = until_nul argument in
    let space = answers sent (32 ∷ []) in
    let sent' = record { sent_bytes = 32 ∷ []; outcome = space } ∷ sent in
    let first = answers sent bytes in
    let later = answers sent' bytes in
    let after_first = record { sent_bytes = bytes; outcome = first } ∷ sent in
    let after_later = record { sent_bytes = bytes; outcome = later } ∷ sent' in
    let rest_first = write_loop answers (suc i) (l + count_of first) after_first args in
    let rest_later =
      write_loop answers (suc i) (l + count_of space + count_of later) after_later args in
    if i == 0
    then if failed_write first
      then write_failed true after_first
      else if fits_int (l + count_of first)
      then rest_first
      else count_overflows after_first
    else if below_zero space
    then write_failed true sent'
    else if not (fits_int (l + count_of space))
    then count_overflows sent'
    else if failed_write later
    then write_failed true after_later
    else if fits_int (l + count_of space + count_of later)
    then rest_later
    else count_overflows after_later

pub write : (List Sent → List ℕ → Wrote) → List (Option (List ℕ)) → Written
unfolding write_loop
write answers args = write_loop answers 0 0 [] args

-- The loop of `Print`: the text is `"%s%s"` of a space, but before the first argument, and the bytes up
-- to a NUL; the error is printed and not reported.
pub print_loop : (List Sent → List ℕ → Wrote) → ℕ → List Sent → List (Option (List ℕ)) → Written
unfolding until_nul
print_loop answers i sent [] =
    let newline = 10 ∷ [] in
    written_all 0 (record { sent_bytes = newline; outcome = answers sent newline } ∷ sent)
print_loop answers i sent (none ∷ args) = write_failed false sent
print_loop answers i sent (some argument ∷ args) =
    let bytes = until_nul argument in
    let text = if i == 0 then bytes else 32 ∷ bytes in
    let after = record { sent_bytes = text; outcome = answers sent text } ∷ sent in
    let rest = print_loop answers (suc i) after args in
    if failed_write (answers sent text) then write_failed false after else rest

abbrev pub print : (List Sent → List ℕ → Wrote) → List (Option (List ℕ)) → Written
unfolding print_loop
print answers args = print_loop answers 0 [] args

-- The length of the text up to its last slash, with it; `none` where there is no slash. `cp` is how
-- many bytes were passed, and `slash` what was found in them.
pub last_slash : ℕ → Option ℕ → List ℕ → Option ℕ
last_slash cp slash [] = slash
last_slash cp slash (b ∷ bs) =
    let found = last_slash (suc cp) (some (suc cp)) bs in
    let on = last_slash (suc cp) slash bs in if b == 47 then found else on

-- `MakeAbsolutePathname`, where the memory is to be had.
pub make_absolute_pathname : List ℕ → List ℕ → List ℕ
unfolding last_slash
make_absolute_pathname from leaf = elim (last_slash 0 none from) [
  | none ↦ leaf
  | some dirlen ↦ take dirlen from ++ leaf
]

-- What the system answers to `Snarf`: whether the file is opened, both calls of fseek(3), ftell(3),
-- the memory, and the bytes that fread(3) brings; and whether JS_NewString succeeds.
pub record SnarfAnswers : Type 0 where
  pub makes_pathname : Bool
  pub opens_file : Bool
  pub seeks_end : Bool
  pub told : ℕ
  pub seeks_start : Bool
  pub makes_buffer : Bool
  pub bytes_read : List ℕ
  pub makes_string : Bool

-- What `Snarf` opens, allocates, closes, frees and reports, the newest first.
pub data SnarfCall : Type 0 where
  pathname_made pathname_freed file_opened file_closed buffer_made buffer_freed snarf_reported :
      SnarfCall

-- The text, of which the string takes the block over, or a failure.
pub data Snarfed : Type 0 where
  snarfed : List ℕ → List SnarfCall → Snarfed
  snarf_failed : List SnarfCall → Snarfed

-- Behind the reading: `fclose`, and where the text is whole the string.
abbrev pub snarf_close : Bool → List SnarfCall → Snarfed
snarf_close has_buffer calls =
    let at_end = pathname_freed ∷ file_closed ∷ calls in
    snarf_failed (if has_buffer then buffer_freed ∷ at_end else at_end)

pub snarf_read : SnarfAnswers → List SnarfCall → Snarfed
snarf_read answers calls =
    let filled = buffer_made ∷ calls in
    let at_end = pathname_freed ∷ file_closed ∷ filled in
    if not answers.makes_buffer
    then snarf_close false calls
    else if length answers.bytes_read == answers.told
    then if answers.makes_string
      then snarfed answers.bytes_read at_end
      else snarf_failed (buffer_freed ∷ at_end)
    else snarf_close true (snarf_reported ∷ filled)

pub snarf : SnarfAnswers → Snarfed
unfolding snarf_read
snarf answers =
    if not answers.makes_pathname
    then snarf_failed []
    else if not answers.opens_file
    then snarf_failed (pathname_freed ∷ snarf_reported ∷ pathname_made ∷ [])
    else (let calls = file_opened ∷ pathname_made ∷ [] in
        if answers.seeks_end && answers.seeks_start
        then snarf_read answers calls
        else snarf_close false (snarf_reported ∷ calls))

-- The parameters that `GCParameter` knows.
pub data CollectorKey : Type 0 where
  max_bytes max_malloc_bytes stackpool_lifespan gc_bytes gc_number trigger_factor : CollectorKey

-- The first argument, made a string, names a parameter, or none; the second is made a uint32.
pub data KeyArgument : Type 0 where
  key_named : CollectorKey → KeyArgument
  no_key key_not_string : KeyArgument

-- How `GCParameter` ends: with the value of a parameter, with a parameter set, or with a failure that is
-- reported or not.
pub data CollectorEnd : Type 0 where
  parameter_read : CollectorKey → CollectorEnd
  parameter_set : CollectorKey → ℕ → CollectorEnd
  parameter_failed : Bool → CollectorEnd

abbrev pub is_read_only : CollectorKey → Bool
is_read_only gc_number = true
is_read_only gc_bytes = true
is_read_only k = false

abbrev pub is_trigger : CollectorKey → Bool
is_trigger trigger_factor = true
is_trigger k = false

-- For `argc` arguments; without one the name is that of void.
pub gc_parameter : ℕ → KeyArgument → Option ℕ → CollectorEnd
gc_parameter zero k v = parameter_failed true
gc_parameter (suc argc) key_not_string v = parameter_failed false
gc_parameter (suc argc) no_key v = parameter_failed true
gc_parameter (suc argc) (key_named k) v =
    if argc == 0
    then parameter_read k
    else if is_read_only k
    then parameter_failed true
    else elim v [
      | none ↦ parameter_failed true
      | some value ↦
          if is_trigger k && ltb value 100 then parameter_failed true else parameter_set k value
    ]
