-- ===== src/Shell/ReadLine.antt =====
-- `ReadLine` of src/js.cpp: a line of the standard input, read by js_fgets into a block that is doubled
-- where it is full. js_fgets is the engine's: a chunk for each call, which is empty at the end of the
-- file.
pub mod Lines
use sysjs.Prelude.{
  Bool, List, Option, [], false, if◌then◌else◌, length, ltb, none, some, true, ℕ, ◌%◌, ◌&&◌, ◌*◌,
  ◌++◌, ◌-◌, ◌==◌, ◌^◌, ◌∷◌,
}
use sysjs.Shell.GetLine.{last_of, without_last}

-- Which calls of the memory succeed, whether the file is at its end behind the loop, and whether the
-- string is made.
pub record Reading : Type 0 where
  pub allocates_first : Bool
  pub reallocates : ℕ → Bool
  pub at_end : Bool
  pub makes_string : Bool

-- The text with whether a newline was behind it, an empty string, null at the end of the file, or a
-- failure.
pub data ReadText : Type 0 where
  text_read : List ℕ → Bool → ReadText
  empty_read null_read read_failed : ReadText

-- Behind the loop: `JS_realloc` to the length and `JS_NewString`. The newline, which was made a NUL, is
-- not part of the string.
pub finish_reading : Reading → Bool → List ℕ → ReadText
finish_reading reading saw_newline [] = if reading.at_end then null_read else empty_read
finish_reading reading saw_newline (b ∷ text) =
    if reading.reallocates (length (b ∷ text)) && reading.makes_string
    then text_read (if saw_newline then without_last (b ∷ text) else b ∷ text) saw_newline
    else read_failed

-- Whether the last byte is a newline.
abbrev pub is_newline : Option ℕ → Bool
is_newline none = false
is_newline (some b) = b == 10

-- The loop, with the bytes before `buf + buflength` in `text`; a size is of 64 bits.
pub reading_loop : Reading → ℕ → List ℕ → List (List ℕ) → ReadText
unfolding finish_reading
reading_loop reading bufsize text [] = finish_reading reading false text
reading_loop reading bufsize text ([] ∷ chunks) = finish_reading reading false text
reading_loop reading bufsize text ((b ∷ chunk) ∷ chunks) =
    let whole = text ++ b ∷ chunk in
    let larger = bufsize * 2 % 2 ^ 64 in
    let later = reading_loop reading larger whole chunks in
    if is_newline (last_of whole)
    then finish_reading reading true whole
    else if ltb (length whole) (bufsize - 1)
    then finish_reading reading false whole
    else if ltb (length whole) larger && reading.reallocates larger
    then later
    else read_failed

-- `BUFSIZE`
abbrev pub bufsize_first : ℕ
bufsize_first = 256

pub read_line : Reading → List (List ℕ) → ReadText
unfolding reading_loop
read_line reading chunks =
    if reading.allocates_first then reading_loop reading bufsize_first [] chunks else read_failed
