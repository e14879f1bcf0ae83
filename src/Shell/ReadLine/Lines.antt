-- ===== src/Shell/ReadLine/Lines.antt =====
-- The lines that `ReadLine` (src/js.cpp) returns.
use sysjs.Prelude.{
  List, [], ap, append_assoc, arith, false, if◌then◌else◌, length, length-append, ltb, ne→not_==,
  refl, some, subst, sym, true, ℕ, ◌%◌, ◌&&◌, ◌*◌, ◌++◌, ◌+◌, ◌-◌, ◌<◌, ◌^◌, ◌∙◌, ◌∷◌, ◌≡◌, ◌≢◌,
}
use sysjs.Shell.GetLine.{last_of}
use sysjs.Shell.GetLine.Lines.{last_of-snoc, without_last-snoc}
use sysjs.Shell.ReadLine.{
  Reading, bufsize_first, finish_reading, is_newline, read_failed, read_line, reading_loop,
  text_read,
}

-- What js_fgets brings of one line, for a block of `size` bytes of which `len` are used: chunks that
-- fill the block, and one that ends with the newline.
pub data Chunked : ℕ → ℕ → List (List ℕ) → List ℕ → Type 0 where
  line_ends :
      {size len : ℕ} {chunks : List (List ℕ)} (bs : List ℕ)
      → Chunked size len ((bs ++ 10 ∷ []) ∷ chunks) bs
  line_goes_on :
      {size len : ℕ} {chunks : List (List ℕ)} {bs : List ℕ} (chunk : List ℕ) (b : ℕ)
      → b ≢ 10
      → len + length chunk + 2 ≡ size
      → size * 2 < 2 ^ 64
      → Chunked (size * 2) (len + length chunk + 1) chunks bs
      → Chunked size len ((chunk ++ b ∷ []) ∷ chunks) ((chunk ++ b ∷ []) ++ bs)

-- A block that is in use, with a newline behind the text.
finish-line :
    (reading : Reading) (text : List ℕ)
    → ((n : ℕ) → reading.reallocates n ≡ true)
    → reading.makes_string ≡ true
    → finish_reading reading true (text ++ 10 ∷ []) ≡ text_read text true
unfolding finish_reading
finish-line reading [] grows makes = rw (grows 1, makes) refl
finish-line reading (b ∷ text) grows makes =
    rw
      (finish_reading, grows (length (b ∷ text ++ 10 ∷ [])), makes, without_last-snoc (b ∷ text) 10)
      refl

-- One round of the loop, for a chunk that is not empty.
reading_loop-chunk :
    (reading : Reading) (size : ℕ) (text chunk : List ℕ) (chunks : List (List ℕ))
    → 0 < length chunk
    → reading_loop reading size text (chunk ∷ chunks) ≡ (
        if is_newline (last_of (text ++ chunk))
        then finish_reading reading true (text ++ chunk)
        else if ltb (length (text ++ chunk)) (size - 1)
        then finish_reading reading false (text ++ chunk)
        else if ltb (length (text ++ chunk)) (size * 2 % 2 ^ 64)
            && reading.reallocates (size * 2 % 2 ^ 64)
        then reading_loop reading (size * 2 % 2 ^ 64) (text ++ chunk) chunks
        else read_failed)
unfolding reading_loop
reading_loop-chunk reading size text [] chunks lt = absurd (omega arith)
reading_loop-chunk reading size text (b ∷ chunk) chunks lt = refl

length-last : (chunk : List ℕ) (b : ℕ) → length (chunk ++ b ∷ []) ≡ length chunk + 1
length-last chunk b = length-append chunk (b ∷ [])

last_behind : (text chunk : List ℕ) (b : ℕ) → last_of (text ++ (chunk ++ b ∷ [])) ≡ some b
last_behind text chunk b =
    subst (λ l. last_of l ≡ some b) (append_assoc text chunk (b ∷ []))
      (last_of-snoc (text ++ chunk) b)

doubled : (size : ℕ) → size * 2 < 2 ^ 64 → size * 2 % 2 ^ 64 ≡ size * 2
doubled size lt = omega arith

module _ (reading : Reading) (grows : (n : ℕ) → reading.reallocates n ≡ true)
    (makes : reading.makes_string ≡ true) where
  loop_ends :
      (size : ℕ) (text bs : List ℕ) (chunks : List (List ℕ))
      → reading_loop reading size text ((bs ++ 10 ∷ []) ∷ chunks) ≡ text_read (text ++ bs) true
  loop_ends size text bs chunks =
      reading_loop-chunk reading size text (bs ++ 10 ∷ []) chunks
        (subst (λ n. 0 < n) (sym (length-last bs 10)) (omega arith))
      ∙ rw (last_behind text bs 10) (
          ap (finish_reading reading true) (sym (append_assoc text bs (10 ∷ [])))
          ∙ finish-line reading (text ++ bs) grows makes)

  loop_goes_on :
      (size : ℕ) (text chunk : List ℕ) (b : ℕ) (chunks : List (List ℕ))
      → b ≢ 10
      → length text + length chunk + 2 ≡ size
      → size * 2 < 2 ^ 64
      → reading_loop reading size text ((chunk ++ b ∷ []) ∷ chunks)
        ≡ reading_loop reading (size * 2) (text ++ (chunk ++ b ∷ [])) chunks
  loop_goes_on size text chunk b chunks ne full small =
      let whole = length-append text (chunk ++ b ∷ []) in
      let added = length-last chunk b in
      let is_full : ltb (length (text ++ (chunk ++ b ∷ []))) (size - 1) ≡ false =
        ground (arith, whole, added, full) in
      let has_room : ltb (length (text ++ (chunk ++ b ∷ []))) (size * 2) ≡ true =
        ground (arith, whole, added, full) in
      reading_loop-chunk reading size text (chunk ++ b ∷ []) chunks
        (subst (λ n. 0 < n) (sym added) (omega arith))
      ∙ rw
          (
            last_behind text chunk b,
            ne→not_== b 10 ne,
            is_full,
            doubled size small,
            has_room,
            grows (size * 2),
          )
          refl

  reading_loop-Chunked :
      {size len : ℕ} {chunks : List (List ℕ)} {bs : List ℕ} (text : List ℕ)
      → len ≡ length text
      → Chunked size len chunks bs
      → reading_loop reading size text chunks ≡ text_read (text ++ bs) true
  reading_loop-Chunked {size} text e (line_ends {chunks = chunks} bs) =
      loop_ends size text bs chunks
  reading_loop-Chunked {size} text e
        (line_goes_on {chunks = chunks} {bs = bs} chunk b ne full small rest) =
      let all_of = chunk ++ b ∷ [] in
      loop_goes_on size text chunk b chunks ne (omega (arith, e, full)) small
      ∙ reading_loop-Chunked (text ++ all_of)
          (omega (arith, e, length-append text all_of, length-last chunk b)) rest
      ∙ ap (λ t. text_read t true) (append_assoc text all_of bs)

-- A line that js_fgets brings in any number of chunks, of which all but the last fill the block that was
-- doubled before it, is returned whole and without its newline, where memory is found and the sizes
-- stay below 2^64.
pub read_line-line :
    (reading : Reading) {chunks : List (List ℕ)} {bs : List ℕ}
    → reading.allocates_first ≡ true
    → ((n : ℕ) → reading.reallocates n ≡ true)
    → reading.makes_string ≡ true
    → Chunked bufsize_first 0 chunks bs
    → read_line reading chunks ≡ text_read bs true
unfolding read_line
read_line-line reading starts grows makes chunked =
    rw (read_line, starts) (reading_loop-Chunked reading grows makes [] refl chunked)
