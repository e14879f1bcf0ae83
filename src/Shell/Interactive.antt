-- ===== src/Shell/Interactive.antt =====
-- The interactive part of `Process` of src/js.cpp: lines are typed until they make a unit that can
-- be compiled, in one block that grows and is used again for the next unit. A line that GetLine
-- returns is its bytes, without NUL.
pub mod Texts
pub mod Units
pub mod Sessions
use sysjs.Prelude.{
  Bool, List, Memory, [], false, if◌then◌else◌, length, ltb, not, slice, store, store_all, suc,
  true, zero, ℕ, ◌&&◌, ◌*◌, ◌++◌, ◌+◌, ◌==◌, ◌||◌, ◌∷◌,
}
use sysjs.Shell.Watchdog.Steps.{schedules}

-- What GetLine answers: a line, NULL at the end, or NULL with errno set.
pub data Typed : Type 0 where
  typed : List ℕ → Typed
  typed_end typed_error : Typed

-- `buffer`, which is NULL at first, with its `size`, and `len`.
pub record Buffer : Type 0 where
  pub allocated : Bool
  pub mem : Memory
  pub size : ℕ
  pub len : ℕ

-- What the engine and the watchdog answer: whether a text is a unit that can be compiled, whether
-- the watchdog is scheduled for the unit that begins in a line and has a text, whether a block of a
-- size is had, and whether the units that were run made the shell quit.
pub record Answering : Type 0 where
  pub compilable : List ℕ → Bool
  pub schedules : ℕ → List ℕ → Bool
  pub reallocs : ℕ → Bool
  pub quitting : List (ℕ × List ℕ) → Bool

-- How a line is added: to a buffer, without memory, or with a write past the block.
pub data Added : Type 0 where
  added : Buffer → Added
  no_memory overrun : Added

-- The size of the block for a text of `newlen` bytes.
pub grown_size : ℕ → ℕ → ℕ
grown_size newlen size =
    if ltb size (newlen + 1)
    then if ltb (size * 2) (newlen + 1) then newlen + 1 else size * 2
    else size

-- The newline, unless the line is the first of its unit, and strcpy(3), with its NUL.
pub put_line : Bool → List ℕ → ℕ → ℕ → Buffer → Added
put_line first bytes newlen size b =
    let current = if first then b.len else b.len + 1 in
    let mem = if first then b.mem else store b.mem b.len 10 in
    if ltb size (current + length bytes + 1)
    then overrun
    else added (record {
      allocated = true;
      mem = store_all mem current (bytes ++ 0 ∷ []);
      size = size;
      len = newlen;
    })

-- The block is enlarged where the text has no room.
pub add_to_block : (ℕ → Bool) → Bool → List ℕ → ℕ → Buffer → Added
unfolding put_line
add_to_block reallocs first bytes newlen b =
    let size = grown_size newlen b.size in
    if ltb b.size (newlen + 1) && not (reallocs size)
    then no_memory
    else put_line first bytes newlen size b

-- The first line of all brings its own block.
pub add_line : (ℕ → Bool) → Bool → List ℕ → Buffer → Added
unfolding add_to_block
add_line reallocs first bytes b =
    if b.allocated
    then add_to_block reallocs first bytes (length bytes + (if b.len == 0 then 0 else b.len + 1)) b
    else added (record {
      allocated = true;
      mem = store_all b.mem 0 (bytes ++ 0 ∷ []);
      size = length bytes + 1;
      len = length bytes;
    })

-- How the loop over the lines of a unit ends: with the unit, the next line's number, what is typed
-- after it, and `hitEOF`; with a return; or it waits for a line.
pub data UnitRead : Type 0 where
  unit_read : Buffer → ℕ → List Typed → Bool → UnitRead
  read_failed read_no_memory read_overrun read_waits : UnitRead

-- Behind a line, with the rest of the loop.
pub after_line : Answering → ℕ → ℕ → List Typed → (Buffer → UnitRead) → Added → UnitRead
after_line answers startline lineno rest later no_memory = read_no_memory
after_line answers startline lineno rest later overrun = read_overrun
after_line answers startline lineno rest later (added b) =
    let text = slice b.mem 0 b.len in
    if not (answers.schedules startline text)
    then unit_read b (suc lineno) rest true
    else if answers.compilable text
    then unit_read b (suc lineno) rest false
    else later b

pub read_unit : Answering → ℕ → ℕ → Buffer → List Typed → UnitRead
unfolding add_line after_line
read_unit answers startline lineno b [] = read_waits
read_unit answers startline lineno b (typed_error ∷ rest) = read_failed
read_unit answers startline lineno b (typed_end ∷ rest) = unit_read b lineno rest true
read_unit answers startline lineno b (typed bytes ∷ rest) =
    after_line answers startline lineno rest
      (λ b'. read_unit answers startline (suc lineno) b' rest)
      (add_line answers.reallocs (startline == lineno) bytes b)

-- How the outer loop ends, with the units that were compiled, each with the line that it begins in,
-- the newest first.
pub data Session : Type 0 where
  session_over session_failed session_no_memory session_overrun session_waits :
      List (ℕ × List ℕ) → Session
  session_unfinished : Session

-- `*buffer = '\0'`, and `len` at the start of the next unit.
abbrev pub next_unit : Buffer → Buffer
next_unit b = record b { mem = store b.mem 0 0; len = 0 }

-- Behind a unit, with what follows it.
pub after_unit :
    Answering
    → List (ℕ × List ℕ)
    → ℕ
    → (List (ℕ × List ℕ) → ℕ → Buffer → List Typed → Session)
    → UnitRead
    → Session
after_unit answers units lineno later read_failed = session_failed units
after_unit answers units lineno later read_no_memory = session_no_memory units
after_unit answers units lineno later read_overrun = session_overrun units
after_unit answers units lineno later read_waits = session_waits units
after_unit answers units lineno later (unit_read b lineno' rest hit_eof) =
    let units' = (lineno, slice b.mem 0 b.len) ∷ units in
    if hit_eof && not b.allocated
    then session_over units
    else if hit_eof || answers.quitting units'
    then session_over units'
    else later units' lineno' (next_unit b) rest

pub session : ℕ → Answering → List (ℕ × List ℕ) → ℕ → Buffer → List Typed → Session
unfolding read_unit after_unit
session zero answers units lineno b input = session_unfinished
session (suc fuel) answers units lineno b input =
    after_unit answers units lineno
      (λ units' lineno' b' rest. session fuel answers units' lineno' b' rest)
      (read_unit answers lineno lineno b input)

abbrev pub no_buffer : Buffer
no_buffer = record { allocated = false; mem = λ i. 0; size = 0; len = 0 }

-- Each unit takes something from what is typed.
pub interactive_session : Answering → List Typed → Session
unfolding session
interactive_session answers input = session (suc (length input)) answers [] 1 no_buffer input
