-- ===== src/Shell/GetLine.antt =====
-- `GetLine` of src/js.cpp, without EDITLINE: a line of any length, read by fgets(3) into a block
-- that is doubled where it is full. The prompt that is printed first is left out.
pub mod Lines
use sysjs.Prelude.{
  Bool, List, Option, [], if◌then◌else◌, length, none, not, some, suc, zero, ℕ, ◌&&◌, ◌*◌, ◌++◌,
  ◌+◌, ◌-◌, ◌==◌, ◌∷◌,
}

-- What fgets(3) reads with room for `n` bytes before the NUL: up to a newline, which it keeps.
pub take_line : ℕ → List ℕ → List ℕ × List ℕ
take_line zero file = ([], file)
take_line (suc n) [] = ([], [])
take_line (suc n) (b ∷ file) =
    let rest = take_line n file in if b == 10 then (b ∷ [], file) else (b ∷ rest.0, rest.1)

-- What strlen(3) counts: the bytes before the first NUL.
unfoldable pub until_nul : List ℕ → List ℕ
until_nul [] = []
until_nul (b ∷ bs) = let rest = until_nul bs in if b == 0 then [] else b ∷ rest

abbrev pub last_of : List ℕ → Option ℕ
last_of [] = none
last_of (b ∷ []) = some b
last_of (b ∷ c ∷ bs) = last_of (c ∷ bs)

abbrev pub without_last : List ℕ → List ℕ
without_last [] = []
without_last (b ∷ []) = []
without_last (b ∷ c ∷ bs) = b ∷ without_last (c ∷ bs)

-- The line and what of the file is left, NULL, a read before the block, or no fuel.
pub data LineRead : Type 0 where
  line : List ℕ → List ℕ → LineRead
  no_line before_block out_of_fuel : LineRead

-- At the end of the file what was read is the line, where there is some and no error.
end_of_file : Bool → List ℕ → LineRead
end_of_file file_error [] = no_line
end_of_file file_error (b ∷ text) = if file_error then no_line else line (b ∷ text) []

-- The loop, with the `len` bytes before `current` in `text`; `allocates` tells for which sizes
-- realloc(3) succeeds. `buffer[len - 1]` is read although `len` is 0 where fgets(3) brings a NUL
-- first.
pub read_loop : ℕ → (ℕ → Bool) → Bool → ℕ → List ℕ → List ℕ → LineRead
unfolding take_line until_nul end_of_file
read_loop zero allocates file_error size text file = out_of_fuel
read_loop (suc fuel) allocates file_error size text [] = end_of_file file_error text
read_loop (suc fuel) allocates file_error size text (b ∷ file) =
    let chunk = take_line (size - length text - 1) (b ∷ file) in
    let whole = text ++ until_nul chunk.0 in
    let full = length whole + 1 == size in
    let larger = if full then size * 2 else size in
    let later = read_loop fuel allocates file_error larger whole chunk.1 in
    elim (last_of whole) [
      | none ↦ before_block
      | some c ↦
          if c == 10
          then line (without_last whole) chunk.1
          else if full && not (allocates larger)
          then no_line
          else later
    ]

abbrev pub initial_line : ℕ
initial_line = 80

-- Each round takes at least a byte from the file.
pub get_line : (ℕ → Bool) → Bool → List ℕ → LineRead
unfolding read_loop
get_line allocates file_error file =
    if allocates initial_line
    then read_loop (suc (length file)) allocates file_error initial_line [] file
    else no_line
