-- ===== src/Shell/GetLine/Lines.antt =====
-- The lines that GetLine of src/js.cpp gives.
use sysjs.Prelude.{
  Bool, Bool-cases, List, Without, Without-append, [], ap, append_assoc, arith, drop, inl, inr,
  length, length-append, length-drop, length-take, ltb, ne→not_==, refl, some, suc, sym, take,
  take-append-drop, true, zero, ℕ, ◌*◌, ◌++◌, ◌+◌, ◌-◌, ◌<◌, ◌==◌, ◌∙◌, ◌∷◌, ◌≡◌, ◌≢◌, ◌≤◌,
}
use sysjs.Shell.GetLine.{
  before_block, get_line, initial_line, last_of, line, read_loop, take_line, until_nul,
  without_last,
}

take_line-whole :
    (n : ℕ) (bs file : List ℕ)
    → length bs < n
    → Without 10 bs
    → take_line n (bs ++ 10 ∷ file) ≡ (bs ++ 10 ∷ [], file)
unfolding take_line
take_line-whole zero bs file lt w = absurd (omega arith)
take_line-whole (suc n) [] file lt w = refl
take_line-whole (suc n) (b ∷ bs) file lt w =
    rw (ne→not_== b 10 w.0, take_line-whole n bs file (omega (arith, lt)) w.1) refl

take_line-part :
    (n : ℕ) (bs file : List ℕ)
    → n ≤ length bs
    → Without 10 bs
    → take_line n (bs ++ file) ≡ (take n bs, drop n bs ++ file)
unfolding take_line
take_line-part zero bs file le w = refl
take_line-part (suc n) [] file le w = absurd (omega arith)
take_line-part (suc n) (b ∷ bs) file le w =
    rw (ne→not_== b 10 w.0, take_line-part n bs file (omega (arith, le)) w.1) refl

until_nul_lem : (bs : List ℕ) → Without 0 bs → until_nul bs ≡ bs
unfolding until_nul
until_nul_lem [] w = refl
until_nul_lem (b ∷ bs) w = rw (ne→not_== b 0 w.0, until_nul_lem bs w.1) refl

pub last_of-snoc : (bs : List ℕ) (c : ℕ) → last_of (bs ++ c ∷ []) ≡ some c
last_of-snoc [] c = refl
last_of-snoc (b ∷ []) c = refl
last_of-snoc (b ∷ b' ∷ bs) c = last_of-snoc (b' ∷ bs) c

pub without_last-snoc : (bs : List ℕ) (c : ℕ) → without_last (bs ++ c ∷ []) ≡ bs
without_last-snoc [] c = refl
without_last-snoc (b ∷ []) c = refl
without_last-snoc (b ∷ b' ∷ bs) c = ap (λ xs. b ∷ xs) (without_last-snoc (b' ∷ bs) c)

last_of-Without :
    (bs : List ℕ) → Without 10 bs → 0 < length bs → (c : ℕ) × (last_of bs ≡ some c) × (c ≢ 10)
last_of-Without [] w lt = absurd (omega arith)
last_of-Without (b ∷ []) w lt = (b, refl, w.0)
last_of-Without (b ∷ c ∷ bs) w lt = last_of-Without (c ∷ bs) w.1 (omega arith)

Without-split :
    (b n : ℕ) (bs : List ℕ) → Without b bs → Without b (take n bs) × Without b (drop n bs)
Without-split b zero bs w = (tt, w)
Without-split b (suc n) [] w = (tt, tt)
Without-split b (suc n) (x ∷ bs) w = let rest = Without-split b n bs w.1 in ((w.0, rest.0), rest.1)

module _ (allocates : ℕ → Bool) (file_error : Bool) where
  -- A round that brings the newline.
  loop_ends :
      (fuel size b : ℕ) (acc bs file rest : List ℕ)
      → take_line (size - length acc - 1) (b ∷ file) ≡ (bs ++ 10 ∷ [], rest)
      → Without 0 bs
      → read_loop (suc fuel) allocates file_error size acc (b ∷ file) ≡ line (acc ++ bs) rest
  unfolding read_loop
  loop_ends fuel size b acc bs file rest e w =
      let seen =
        until_nul_lem (bs ++ 10 ∷ []) (Without-append 0 bs (10 ∷ []) w (omega arith, tt)) in
      rw
        (
          read_loop,
          e,
          seen,
          sym (append_assoc acc bs (10 ∷ [])),
          last_of-snoc (acc ++ bs) 10,
          e,
          seen,
          sym (append_assoc acc bs (10 ∷ [])),
          without_last-snoc (acc ++ bs) 10,
        )
        refl

  -- A round that fills the block.
  loop_goes_on :
      (fuel size b : ℕ) (acc bs file rest : List ℕ)
      → take_line (size - length acc - 1) (b ∷ file) ≡ (bs, rest)
      → Without 0 bs
      → Without 10 (acc ++ bs)
      → length acc + 1 < size
      → length bs ≡ size - length acc - 1
      → ((n : ℕ) → allocates n ≡ true)
      → read_loop (suc fuel) allocates file_error size acc (b ∷ file)
        ≡ read_loop fuel allocates file_error (size * 2) (acc ++ bs) rest
  unfolding read_loop
  loop_goes_on fuel size b acc bs file rest e w w10 fits full enough =
      let total = length-append acc bs in
      let is_full : (length (acc ++ bs) + 1 == size) ≡ true = ground (arith, total, fits, full) in
      let last_byte = last_of-Without (acc ++ bs) w10 (omega (arith, total, fits, full)) in
      rw
        (
          read_loop,
          e,
          until_nul_lem bs w,
          last_byte.1,
          ne→not_== last_byte.0 10 last_byte.2,
          e,
          until_nul_lem bs w,
          is_full,
          enough (size * 2),
        )
        refl

  read_loop-line :
      (fuel size : ℕ) (acc bs rest : List ℕ)
      → length bs < fuel
      → length acc + 1 < size
      → Without 10 acc
      → Without 10 bs
      → Without 0 bs
      → ((n : ℕ) → allocates n ≡ true)
      → read_loop fuel allocates file_error size acc (bs ++ 10 ∷ rest) ≡ line (acc ++ bs) rest
  read_loop-line zero size acc bs rest lt fits wa w10 w0 enough = absurd (omega arith)
  read_loop-line (suc fuel) size acc [] rest lt fits wa w10 w0 enough =
      let n = size - length acc - 1 in
      loop_ends fuel size 10 acc [] rest rest (take_line-whole n [] rest (omega (arith, fits)) tt)
        tt
  read_loop-line (suc fuel) size acc (b ∷ bs) rest lt fits wa w10 w0 enough =
      let n = size - length acc - 1 in
      elim (Bool-cases (ltb (suc (length bs)) n)) [
        | inl short ↦
            loop_ends fuel size b acc (b ∷ bs) (bs ++ 10 ∷ rest) rest
              (take_line-whole n (b ∷ bs) rest (ground (arith, short)) w10) w0
        | inr long ↦
            let size_n = length-take n (b ∷ bs) in
            let room : n ≤ length (b ∷ bs) = ground (arith, long) in
            let parts10 = Without-split 10 n (b ∷ bs) w10 in
            let parts0 = Without-split 0 n (b ∷ bs) w0 in
            let next = acc ++ take n (b ∷ bs) in
            let grown = length-append acc (take n (b ∷ bs)) in
            loop_goes_on fuel size b acc (take n (b ∷ bs)) (bs ++ 10 ∷ rest)
              (drop n (b ∷ bs) ++ 10 ∷ rest) (take_line-part n (b ∷ bs) (10 ∷ rest) room w10)
              parts0.0 (Without-append 10 acc (take n (b ∷ bs)) wa parts10.0) fits
              (omega (arith, size_n, room)) enough
            ∙ read_loop-line fuel (size * 2) next (drop n (b ∷ bs)) rest
                (omega (arith, length-drop n (b ∷ bs), lt, fits))
                (omega (arith, grown, size_n, room, fits))
                (Without-append 10 acc (take n (b ∷ bs)) wa parts10.0) parts10.1 parts0.1 enough
            ∙ ap (λ xs. line xs rest)
                (append_assoc acc (take n (b ∷ bs)) (drop n (b ∷ bs))
                  ∙ ap (λ xs. acc ++ xs) (take-append-drop n (b ∷ bs)))
      ]

-- Where memory is enough, a line of any length without NUL is returned whole, and the file stands
-- after its newline; the fuel is enough.
pub get_line-line :
    (allocates : ℕ → Bool) (file_error : Bool) (bs rest : List ℕ)
    → ((n : ℕ) → allocates n ≡ true)
    → Without 10 bs
    → Without 0 bs
    → get_line allocates file_error (bs ++ 10 ∷ rest) ≡ line bs rest
unfolding get_line
get_line-line allocates file_error bs rest enough w10 w0 =
    let size = length-append bs (10 ∷ rest) in
    rw (get_line, enough initial_line)
      (read_loop-line allocates file_error (suc (length (bs ++ 10 ∷ rest))) initial_line [] bs rest
        (omega (arith, size)) (omega arith) tt w10 w0 enough)

-- A line that begins with a NUL is undefined: the byte before the block is read, and written where
-- it is a newline.
pub get_line-nul :
    (allocates : ℕ → Bool) (file_error : Bool) (file : List ℕ)
    → allocates initial_line ≡ true
    → get_line allocates file_error (0 ∷ file) ≡ before_block
unfolding get_line read_loop take_line until_nul
get_line-nul allocates file_error file enough = rw (get_line, enough) refl
