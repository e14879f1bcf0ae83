-- ===== src/Shell/Interactive/Units.antt =====
-- The units that the interactive part of `Process` (src/js.cpp) reads, and the same over texts, without
-- blocks and lengths.
use sysjs.Prelude.{
  Bool, Bool-cases, Holds, List, [], ap, arith, false, if◌then◌else◌, inl, inr, length, ne→not_==,
  not, refl, slice, slice-Holds, subst, suc, sym, true, ℕ, ◌<◌, ◌==◌, ◌∷◌, ◌≡◌, ◌≤◌,
}
use sysjs.Shell.Interactive.{
  Added, Answering, Buffer, Typed, UnitRead, add_line, added, after_line, no_memory, overrun,
  read_failed, read_unit, read_waits, typed, typed_end, typed_error, unit_read,
}
use sysjs.Shell.Interactive.Texts.{
  AddedText, Collects, HoldsText, add_line-AddedText, nothing_yet, some_lines, with_line,
}

-- The loop over the lines of a unit, with its text so far; `had` tells whether a line was ever typed.
pub data TextRead : Type 0 where
  text_read : List ℕ → ℕ → List Typed → Bool → Bool → TextRead
  text_failed text_waits : TextRead

unfoldable pub read_text : Answering → ℕ → ℕ → Bool → List ℕ → List Typed → TextRead
unfolding with_line
read_text answers startline lineno had text [] = text_waits
read_text answers startline lineno had text (typed_error ∷ rest) = text_failed
read_text answers startline lineno had text (typed_end ∷ rest) = text_read text lineno rest true had
read_text answers startline lineno had text (typed bytes ∷ rest) =
    let whole = with_line (startline == lineno) text bytes in
    let later = read_text answers startline (suc lineno) true whole rest in
    if not (answers.schedules startline whole)
    then text_read whole (suc lineno) rest true true
    else if answers.compilable whole
    then text_read whole (suc lineno) rest false true
    else later

-- What a unit that was read is as a text.
unfoldable pub ReadAs : TextRead → UnitRead → Type 0
ReadAs (text_read text lineno rest hit_eof had) (unit_read b lineno' rest' hit_eof') =
    (slice b.mem 0 b.len ≡ text)
    × (lineno' ≡ lineno)
    × (rest' ≡ rest)
    × (hit_eof' ≡ hit_eof)
    × (b.allocated ≡ had)
ReadAs text_failed read_failed = Unit {0}
ReadAs text_waits read_waits = Unit
ReadAs _ _ = ⊥ × Unit

Collects-text :
    (text : List ℕ) (b : Buffer) (first : Bool) → Collects text b first → slice b.mem 0 b.len ≡ text
Collects-text text b true (nothing_yet e none_yet) =
    slice-Holds b.mem 0 b.len text (omega (arith, none_yet, ap length e))
      (subst (Holds b.mem 0) (sym e) tt)
Collects-text text b false (some_lines h lt) = slice-Holds b.mem 0 b.len text h.counted_len h.held

-- How a line that was added goes on, as a text and in the block.
after_line-ReadAs :
    (answers : Answering) (startline lineno : ℕ) (rest : List Typed) (whole : List ℕ)
    (later : Buffer → UnitRead) (later' : TextRead) (a : Added)
    → AddedText whole a
    → ((b : Buffer)
        → HoldsText whole b
        → answers.compilable whole ≡ false
        → ReadAs later' (later b))
    → ReadAs
        (if not (answers.schedules startline whole)
          then text_read whole (suc lineno) rest true true
          else if answers.compilable whole
          then text_read whole (suc lineno) rest false true
          else later')
        (after_line answers startline lineno rest later a)
unfolding after_line AddedText ReadAs
after_line-ReadAs answers startline lineno rest whole later later' no_memory h k = absurd h.0
after_line-ReadAs answers startline lineno rest whole later later' overrun h k = absurd h.0
after_line-ReadAs answers startline lineno rest whole later later' (added b) (h, _) k =
    let same = slice-Holds b.mem 0 b.len whole h.counted_len h.held in
    rw same (elim (Bool-cases (answers.schedules startline whole)) [
      | inr q ↦ rw q (same, refl, refl, refl, h.block)
      | inl q ↦ elim (Bool-cases (answers.compilable whole)) [
        | inl r ↦ rw (q, r) (same, refl, refl, refl, h.block)
        | inr r ↦ rw (q, r) (k b h r)
      ]
    ])

module _ (answers : Answering) where
  module _ (enough : (k : ℕ) → answers.reallocs k ≡ true)
      (empty_unit : answers.compilable [] ≡ true) where
    -- A text that is no unit yet is not empty.
    not_empty : (text : List ℕ) → answers.compilable text ≡ false → 0 < length text
    not_empty [] r = absurd (cc)
    not_empty (x ∷ xs) r = omega arith

    pub read_unit-ReadAs :
        (startline lineno : ℕ) (text : List ℕ) (b : Buffer) (input : List Typed)
        → Collects text b (startline == lineno)
        → startline ≤ lineno
        → ReadAs
            (read_text answers startline lineno b.allocated text input)
            (read_unit answers startline lineno b input)
    unfolding read_text read_unit ReadAs
    read_unit-ReadAs startline lineno text b [] c le = tt
    read_unit-ReadAs startline lineno text b (typed_error ∷ rest) c le = tt
    read_unit-ReadAs startline lineno text b (typed_end ∷ rest) c le =
        (Collects-text text b (startline == lineno) c, refl, refl, refl, refl)
    read_unit-ReadAs startline lineno text b (typed bytes ∷ rest) c le =
        let first = startline == lineno in
        let whole = with_line first text bytes in
        let next : (startline == suc lineno) ≡ false =
          ne→not_== startline (suc lineno) (λ q. omega (arith, q)) in
        after_line-ReadAs answers startline lineno rest whole
          (λ b'. read_unit answers startline (suc lineno) b' rest)
          (read_text answers startline (suc lineno) true whole rest)
          (add_line answers.reallocs first bytes b)
          (add_line-AddedText answers.reallocs enough first text bytes b c)
          (λ b' h r.
            subst
              (λ had.
                ReadAs (read_text answers startline (suc lineno) had whole rest)
                  (read_unit answers startline (suc lineno) b' rest))
              h.block
              (read_unit-ReadAs startline (suc lineno) whole b' rest
                (subst (Collects whole b') (sym next) (some_lines h (not_empty whole r)))
                (omega arith)))
